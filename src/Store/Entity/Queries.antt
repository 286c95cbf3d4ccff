-- ===== src/Store/Entity/Queries.antt =====
-- The query by fields of crates/store/src/entity.rs.
use superquery_node.Store.Error
use Prim.Native.String.{◌++◌ as push_str}
use superquery_node.Common.{
  find, All, to_string, ℤ, pos, negsuc, Result, ok, ◌>>=◌, ok_or, >>=-eq-ok, ok_or-eq-ok, IsOk,
  ok-IsOk, >>=-IsOk, String, str_eq, ℕ, suc, ◌+◌, ◌≡◌, ap, ◌↔◌, Option, none, some, List, [], ◌∷◌,
}
use superquery_node.Store.Ddl.{join_text, concat_text}
use superquery_node.Store.Entity.{
  PlainModel, EntityJson, QueryOptions, placeholder, Statement, encode, projection,
}
use superquery_node.Store.Operations.{OrderDir, ascending, descending_order}
use superquery_node.Store.Error.{StoreError}
use superquery_node.Store.Schema.{EntityField}

abbrev print_int : ℤ → String
print_int (pos n) = to_string n
print_int (negsuc n) = push_str "-" (to_string (suc n))

unfoldable pub direction : OrderDir → String
direction ascending = "ASC"
direction descending_order = "DESC"

unfoldable pub where_clause : List String → String
where_clause [] = ""
where_clause (part ∷ parts) = push_str "WHERE " (join_text " AND " (part ∷ parts))

-- Deleting by id: nothing is sent for no ids; the ids are one parameter, an array.
unfoldable pub remove : PlainModel → List String → Option (String × List String)
remove model [] = none
remove model (id ∷ ids) = some (
  concat_text
      ("DELETE FROM \"" ∷ model.schema ∷ "\".\"" ∷ model.table ∷ "\" WHERE id = ANY($1)" ∷ []),
  id ∷ ids,
)

module _ {Json : Type 0} (json : EntityJson Json) (underscored : String → String) where
  -- The loop over the filters, from parameter `idx` on.
  unfoldable pub filter_parts :
      PlainModel → ℕ → List (String × Json) → Result StoreError (List String × List (Option String))
  filter_parts model idx [] = ok ([], [])
  filter_parts model idx ((name, value) ∷ filters) = do
    field ←
        ok_or (Error.unsupported_type (push_str "unknown field " name))
          (find (λ f. str_eq f.name name) model.fields)
    let part = concat_text ("\"" ∷ underscored name ∷ "\" = " ∷ placeholder field idx ∷ [])
    rest ← filter_parts model (idx + 1) filters
    ok (part ∷ rest.0, encode json underscored field (some value) ∷ rest.1)

  unfoldable pub get_by_fields :
      PlainModel → List (String × Json) → QueryOptions → Result StoreError Statement
  get_by_fields model filters opts = do
    parts ← filter_parts model 1 filters
    ok (record {
      sql = concat_text (
          "SELECT "
          ∷ projection json underscored model
          ∷ " FROM \""
          ∷ model.schema
          ∷ "\".\""
          ∷ model.table
          ∷ "\" "
          ∷ where_clause parts.0
          ∷ " ORDER BY \""
          ∷ underscored opts.order_by
          ∷ "\" "
          ∷ direction opts.order_direction
          ∷ " LIMIT "
          ∷ print_int opts.limit
          ∷ " OFFSET "
          ∷ print_int opts.offset
          ∷ []);
      params = parts.1;
    })

  -- A filter on a field of the model.
  abbrev pub IsKnown : PlainModel → String × Json → Type 0
  IsKnown model filter =
      (field : EntityField) × (find (λ f. str_eq f.name filter.0) model.fields ≡ some field)

  filter_parts_iff :
      (model : PlainModel) (idx : ℕ) (filters : List (String × Json))
      → IsOk (filter_parts model idx filters) ↔ All (IsKnown model) filters
  unfolding filter_parts
  filter_parts_iff model idx [] = ((λ _. tt), (λ _. ok-IsOk _))
  filter_parts_iff model idx ((name, value) ∷ filters) =
      let rest = filter_parts_iff model (idx + 1) filters in
      let lookup = find (λ f. str_eq f.name name) model.fields in
      let error = Error.unsupported_type (push_str "unknown field " name) in
      (
        (λ (parts, e).
            let (field, a, e1) = >>=-eq-ok (ok_or error lookup) _ e in
            let (more, b, last) = >>=-eq-ok (filter_parts model (idx + 1) filters) _ e1 in
            ((field, ok_or-eq-ok error lookup a), rest.0 (more, b))),
        (λ ((field, there), others).
            >>=-IsOk (ok_or error lookup) _ (field, ap (ok_or error) there)
              λ found.
                >>=-IsOk (filter_parts model (idx + 1) filters) _ (rest.1 others)
                  λ more. ok-IsOk _),
      )

  -- A query is sent exactly if every field it filters by is one of the model's.
  pub get_by_fields_iff :
      (model : PlainModel) (filters : List (String × Json)) (opts : QueryOptions)
      → IsOk (get_by_fields model filters opts) ↔ All (IsKnown model) filters
  unfolding get_by_fields
  get_by_fields_iff model filters opts =
      let parts = filter_parts_iff model 1 filters in
      (
        (λ (statement, e).
            let (found, a, last) = >>=-eq-ok (filter_parts model 1 filters) _ e in
            parts.0 (found, a)),
        (λ known. >>=-IsOk (filter_parts model 1 filters) _ (parts.1 known) λ found. ok-IsOk _),
      )
