-- ===== src/Store/Versions.antt =====
-- crates/store/src/rewind.rs: the versions of an entity, each with the range of heights it was valid
-- for, and the two statements that undo heights. A statement is its text, and the function on rows
-- that the text says: `lower` and `upper` are the ends of the range, and an open range has no upper
-- end, for which a comparison does not hold.
use Prim.Native.String.{◌++◌ as push_str}
use superquery_node.Common.{
  ltb, leb, if◌then◌else◌, keep, to_string, String, ℕ, Bool, false, not, ◌&&◌, Option, none, some,
  List, [], ◌∷◌, map,
}
use superquery_node.Store.Ddl.{concat_text}
pub mod AsOf

abbrev pub block_range_column : String
block_range_column = "_block_range"

unfoldable pub delete_versions_above_sql : String → String → ℕ → String
delete_versions_above_sql schema table height = concat_text (
    "DELETE FROM \""
    ∷ schema
    ∷ "\".\""
    ∷ table
    ∷ "\" WHERE lower(\""
    ∷ block_range_column
    ∷ "\") > "
    ∷ to_string height
    ∷ [])

unfoldable pub reopen_versions_sql : String → String → ℕ → String
reopen_versions_sql schema table height = concat_text (
    "UPDATE \""
    ∷ schema
    ∷ "\".\""
    ∷ table
    ∷ "\" SET \""
    ∷ block_range_column
    ∷ "\" = int8range(lower(\""
    ∷ block_range_column
    ∷ "\"), NULL) WHERE upper(\""
    ∷ block_range_column
    ∷ "\") > "
    ∷ to_string height
    ∷ " AND lower(\""
    ∷ block_range_column
    ∷ "\") <= "
    ∷ to_string height
    ∷ [])

pub record Version (Row : Type 0) : Type 0 where
  pub lower : ℕ
  pub upper : Option ℕ
  pub row : Row

abbrev pub is_above : Option ℕ → ℕ → Bool
is_above none height = false
is_above (some end) height = ltb height end

module _ {Row : Type 0} where
  -- What `delete_versions_above_sql` does.
  unfoldable pub delete_versions_above : ℕ → List (Version Row) → List (Version Row)
  delete_versions_above height versions = keep (λ v. not (ltb height v.lower)) versions

  unfoldable pub reopen_version : ℕ → Version Row → Version Row
  reopen_version height version =
      if is_above version.upper height && leb version.lower height
      then record version { upper = none }
      else version

  -- What `reopen_versions_sql` does.
  unfoldable pub reopen_versions : ℕ → List (Version Row) → List (Version Row)
  reopen_versions height versions = map (reopen_version height) versions
