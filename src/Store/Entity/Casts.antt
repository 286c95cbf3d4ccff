-- ===== src/Store/Entity/Casts.antt =====
-- The columns that crates/store/src/ddl.rs makes, and the parameters that crates/store/src/entity.rs
-- binds to them.
use superquery_node.Common.{
  if◌then◌else◌, Bool-cases, all, All, str_eq_iff, ok, ok-injective, String, str_eq, ℕ, ◌≡◌, refl,
  sym, ap, ◌∙◌, ◌⊎◌, inl, inr, false, List, [], ◌∷◌, arith,
}
use superquery_node.Store.Ddl.{column_type, scalar_type}
use superquery_node.Store.Entity.{plain, decoded, scalar_placeholder, placeholder, cast_to}
use superquery_node.Store.Schema.{EntityField}

-- The parameter of a column of a type: bound as text, and cast to the type where it is another.
abbrev pub cast_of : String → ℕ → String
cast_of ty idx =
    if str_eq ty "text"
    then plain idx
    else if str_eq ty "bytea"
    then decoded idx
    else cast_to ty idx

-- A base type and the column it gets.
abbrev columns_of : List (String × String)
columns_of =
    ("ID", "text")
    ∷ ("String", "text")
    ∷ ("Int", "integer")
    ∷ ("BigInt", "numeric")
    ∷ ("Float", "double precision")
    ∷ ("Boolean", "boolean")
    ∷ ("Bytes", "bytea")
    ∷ ("Date", "timestamp")
    ∷ ("Json", "jsonb")
    ∷ []

abbrev IsCast : ℕ → String × String → Type 0
IsCast idx pair =
    (scalar_type pair.0 ≡ ok pair.1) × (scalar_placeholder pair.0 idx ≡ cast_of pair.1 idx)

columns_of-IsCast : (idx : ℕ) → All (IsCast idx) columns_of
unfolding scalar_type scalar_placeholder
columns_of-IsCast idx = (
  (refl, refl),
  (
    (refl, refl),
    (
      (refl, refl),
      (
        (refl, refl),
        ((refl, refl), ((refl, refl), ((refl, refl), ((refl, refl), ((refl, refl), tt))))),
      ),
    ),
  ),
)

-- A base type is in a list, with what holds of the list, or it is not.
listed :
    (P : String × String → Type 0) (base : String) (pairs : List (String × String))
    → All P pairs
    → ((pair : String × String) × (base ≡ pair.0) × P pair)
      ⊎ All (λ pair. str_eq base pair.0 ≡ false) pairs
listed P base [] all = inr tt
listed P base (pair ∷ pairs) all = elim (Bool-cases (str_eq base pair.0)) [
  | inl same ↦ inl (pair, (str_eq_iff base pair.0).0 same, all.0)
  | inr other ↦ elim (listed P base pairs all.1) [
    | inl found ↦ inl found
    | inr none_there ↦ inr (other, none_there)
  ]
]

scalar_placeholder-scalar_type :
    (base ty : String) (idx : ℕ)
    → scalar_type base ≡ ok ty
    → scalar_placeholder base idx ≡ cast_of ty idx
unfolding scalar_type
scalar_placeholder-scalar_type base ty idx e =
    elim (listed (IsCast idx) base columns_of (columns_of-IsCast idx)) [
      | inl (pair, same, (made, cast)) ↦
          let typed : ty ≡ pair.1 = ok-injective (sym e ∙ ap scalar_type same ∙ made) in
          rw (same, typed) cast
      | inr others ↦ ground (arith, e, others)
    ]

-- Every field that has a column is bound with a cast to just that column's type.
pub placeholder-column_type :
    (field : EntityField) (ty : String) (idx : ℕ)
    → column_type field ≡ ok ty
    → placeholder field idx ≡ cast_of ty idx
unfolding column_type placeholder
placeholder-column_type field ty idx e = elim (Bool-cases field.is_array) [
  | inl array ↦
      let typed : ty ≡ "jsonb" = ok-injective (sym (rw array at e)) in rw (array, typed) refl
  | inr scalar ↦ rw scalar (scalar_placeholder-scalar_type field.base_type ty idx (rw scalar at e))
]
