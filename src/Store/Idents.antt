-- ===== src/Store/Idents.antt =====
-- crates/store/src/postgres.rs: which names are put into statements. A name is its UTF-8 bytes.
use superquery_node.Store.Error
use superquery_node.Common.{
  leb, ◌==◌, length, all, is_empty, All, Result, ok, ensure, Bytes, String, ℕ, ◌≤◌, ◌≡◌, refl, ◌≢◌,
  ◌↔◌, ◌⊎◌, Bool, true, false, not, ◌&&◌, ◌||◌, [], ◌∷◌, arith,
}
use superquery_node.Store.Error.{StoreError}

unfoldable pub is_digit : ℕ → Bool
is_digit c = leb b'0' c && leb c b'9'

unfoldable pub is_ident_byte : ℕ → Bool
is_ident_byte c = is_digit c || leb b'a' c && leb c b'z' || leb b'A' c && leb c b'Z' || c == b'_'

unfoldable pub starts_with_digit : Bytes → Bool
starts_with_digit [] = false
starts_with_digit (c ∷ s) = is_digit c

module _ (text : Bytes → String) where
  unfoldable pub validate_ident : Bytes → Result StoreError (Unit {0})
  validate_ident ident =
      ensure
        (not (is_empty ident)
          && leb (length ident) 63
          && all is_ident_byte ident
          && not (starts_with_digit ident))
        (Error.invalid_identifier (text ident))

  -- A byte of a name is a letter, a digit or an underscore, and so no quotation mark.
  abbrev pub IsSafe : ℕ → Type 0
  IsSafe c = ((48 ≤ c) × (c ≤ 57)) ⊎ ((97 ≤ c) × (c ≤ 122)) ⊎ ((65 ≤ c) × (c ≤ 90)) ⊎ (c ≡ 95)

  ident_bytes : (s : Bytes) → (all is_ident_byte s ≡ true) ↔ All IsSafe s
  unfolding is_ident_byte is_digit
  ident_bytes [] = ((λ _. tt), (λ _. refl))
  ident_bytes (c ∷ s) =
      let rest = ident_bytes s in
      (
        (λ e. (ground (arith, e), rest.0 (ground (arith, e)))),
        (λ (safe, others). ground (arith, safe, rest.1 others)),
      )

  abbrev pub IsIdent : Bytes → Type 0
  IsIdent ident =
      (ident ≢ []) × (length ident ≤ 63) × All IsSafe ident × (starts_with_digit ident ≡ false)

  -- A name is accepted exactly if it is not empty, has at most 63 bytes, all of them letters,
  -- digits or underscores, and does not start with a digit.
  pub validate_ident_iff : (ident : Bytes) → (validate_ident ident ≡ ok tt) ↔ IsIdent ident
  unfolding validate_ident
  validate_ident_iff [] = ((λ e. cc), (λ h. elim (h.0 refl) [ ]))
  validate_ident_iff (c ∷ s) =
      let safe = ident_bytes (c ∷ s) in
      (
        (λ e. ((λ empty. cc), ground (arith, e), safe.0 (ground (arith, e)), ground (arith, e))),
        (λ (nonempty, short, bytes, first). rw (safe.1 bytes, first) (ground (arith, short))),
      )
