-- ===== src/Store/Metadata/Select.antt =====
-- What an upsert changes in crates/store/src/metadata.rs, seen through lookups.
use superquery_node.Common.{
  if◌then◌else◌, str_eq_iff, String, str_eq, ◌≡◌, refl, Option, none, some, [], ◌∷◌, arith,
}
use superquery_node.Store.Metadata.{get, set, set_all, Table}

pub get-set :
    (k key value : String) (table : Table)
    → get k (set key value table) ≡ (if str_eq key k then some value else get k table)
unfolding get set
get-set k key value [] = refl
get-set k key value ((j, v) ∷ rows) =
    ground (arith, get-set k key value rows, str_eq_iff j key, str_eq_iff j k, str_eq_iff key k)

-- No key stands twice.
abbrev pub Distinct : Table → Type 0
Distinct [] = Unit
Distinct ((key, value) ∷ rows) = (get key rows ≡ none) × Distinct rows

abbrev pub or_else : Option String → Option String → Option String
or_else (some v) other = some v
or_else none other = other

pub get-set_all :
    (k : String) (facts table : Table)
    → Distinct facts
    → get k (set_all facts table) ≡ or_else (get k facts) (get k table)
unfolding get set_all
get-set_all k [] table d = refl
get-set_all k ((key, value) ∷ facts) table d = ground (
  arith,
  get-set_all k facts (set key value table) d.1,
  get-set k key value table,
  str_eq_iff key k,
)
