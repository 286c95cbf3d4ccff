-- ===== src/Evm/Hex.antt =====
-- The hex comparisons of crates/chains/evm/src/filter.rs. A text is the list of its UTF-8 bytes.
use superquery_node.Common.{
  ltb, leb, ◌==◌, if◌then◌else◌, ==_iff, Option-cases, length, is_empty, ℕ, zero, suc, ◌+◌, ◌≡◌,
  refl, sym, ap, ◌∙◌, ◌≢◌, ◌↔◌, inl, inr, Bool, true, false, ◌&&◌, ◌||◌, Option, none, some, [],
  ◌∷◌, ◌++◌, map, arith,
}
pub use superquery_node.Common.{Bytes}

unfoldable pub to_ascii_lowercase : ℕ → ℕ
to_ascii_lowercase c = if leb b'A' c && leb c b'Z' then c + 32 else c

unfoldable pub eq_ignore_ascii_case : Bytes → Bytes → Bool
unfolding to_ascii_lowercase
eq_ignore_ascii_case [] [] = true
eq_ignore_ascii_case [] (d ∷ t) = false
eq_ignore_ascii_case (c ∷ s) [] = false
eq_ignore_ascii_case (c ∷ s) (d ∷ t) =
    to_ascii_lowercase c == to_ascii_lowercase d && eq_ignore_ascii_case s t

-- `strip_prefix("0x").unwrap_or(s)`.
unfoldable pub strip_prefix : Bytes → Bytes
strip_prefix [] = []
strip_prefix (c ∷ []) = c ∷ []
strip_prefix (c ∷ d ∷ s) = if c == b'0' && d == b'x' then s else c ∷ d ∷ s

unfoldable pub eq_hex : Bytes → Bytes → Bool
unfolding eq_ignore_ascii_case strip_prefix
eq_hex a b =
    let a = strip_prefix a in
    let b = strip_prefix b in length a == length b && eq_ignore_ascii_case a b

-- `get(..n)`: nothing past the end, or inside a character.
unfoldable pub get_prefix : ℕ → Bytes → Option Bytes
get_prefix zero [] = some []
get_prefix zero (c ∷ s) = if leb 128 c && ltb c 192 then none else some []
get_prefix (suc n) [] = none
get_prefix (suc n) (c ∷ s) = elim (get_prefix n s) [ none ↦ none | some p ↦ some (c ∷ p) ]

unfoldable pub input_starts_with_selector : Bytes → Bytes → Bool
unfolding eq_ignore_ascii_case strip_prefix get_prefix
input_starts_with_selector input selector =
    let input = strip_prefix input in
    let selector = strip_prefix selector in
    if is_empty selector || ltb (length input) (length selector)
    then false
    else elim (get_prefix (length selector) input) [
      | none ↦ false
      | some prefix ↦ eq_ignore_ascii_case prefix selector
    ]

-- What a hex text stands for: its digits in lower case, without the prefix.
unfoldable pub normal : Bytes → Bytes
unfolding to_ascii_lowercase strip_prefix
normal s = map to_ascii_lowercase (strip_prefix s)

eq_ignore_ascii_case_iff :
    (s t : Bytes)
    → (eq_ignore_ascii_case s t ≡ true) ↔ (map to_ascii_lowercase s ≡ map to_ascii_lowercase t)
unfolding eq_ignore_ascii_case
eq_ignore_ascii_case_iff [] [] = ((λ e. refl), (λ e. refl))
eq_ignore_ascii_case_iff [] (d ∷ t) = ((λ e. ground arith), (λ e. ground arith))
eq_ignore_ascii_case_iff (c ∷ s) [] = ((λ e. ground arith), (λ e. ground arith))
eq_ignore_ascii_case_iff (c ∷ s) (d ∷ t) = (
  (λ e. ground (arith, eq_ignore_ascii_case_iff s t)),
  (λ e. ground (arith, eq_ignore_ascii_case_iff s t)),
)

length-map : (f : ℕ → ℕ) (s : Bytes) → length (map f s) ≡ length s
length-map f [] = refl
length-map f (c ∷ s) = ap suc (length-map f s)

==_of : {m n : ℕ} → m ≡ n → (m == n) ≡ true
==_of {m} {n} e = (==_iff m n).1 e

both_true : {b c : Bool} → b ≡ true → c ≡ true → (b && c) ≡ true
both_true p q = rw (p, q) refl

-- Two texts are equal as hex exactly if they stand for the same digits.
pub eq_hex_iff : (a b : Bytes) → (eq_hex a b ≡ true) ↔ (normal a ≡ normal b)
unfolding eq_hex normal
eq_hex_iff a b = (
  (λ e. (eq_ignore_ascii_case_iff (strip_prefix a) (strip_prefix b)).0 (ground arith)),
  (λ e.
      both_true
        (==_of (
          sym (length-map to_ascii_lowercase (strip_prefix a))
          ∙ ap length e
          ∙ length-map to_ascii_lowercase (strip_prefix b)))
        ((eq_ignore_ascii_case_iff (strip_prefix a) (strip_prefix b)).1 e)),
)

get_prefix-append :
    (n : ℕ) (s p : Bytes) → get_prefix n s ≡ some p → (rest : Bytes) × (s ≡ p ++ rest)
unfolding get_prefix
get_prefix-append zero [] p e = ([], ground arith)
get_prefix-append zero (c ∷ s) p e = (c ∷ s, ground arith)
get_prefix-append (suc n) [] p e = ground arith
get_prefix-append (suc n) (c ∷ s) p e = elim (Option-cases (get_prefix n s)) [
  | inl short ↦ ground (arith, e, short)
  | inr (q, found) ↦
      let (rest, split) = get_prefix-append n s q found in (rest, ground (arith, e, found, split))
]

map-append : (f : ℕ → ℕ) (s t : Bytes) → map f (s ++ t) ≡ map f s ++ map f t
map-append f [] t = refl
map-append f (c ∷ s) t = ap (λ r. f c ∷ r) (map-append f s t)

starts :
    (input selector : Bytes)
    → (if is_empty selector || ltb (length input) (length selector)
        then false
        else elim (get_prefix (length selector) input) [
          | none ↦ false
          | some prefix ↦ eq_ignore_ascii_case prefix selector
        ])
      ≡ true
    → (map to_ascii_lowercase selector ≢ [])
      × (rest : Bytes) × (map to_ascii_lowercase input ≡ map to_ascii_lowercase selector ++ rest)
starts input [] e = ground arith
starts input (c ∷ selector) e = elim (Option-cases (get_prefix (suc (length selector)) input)) [
  | inl short ↦ ground (arith, e, short)
  | inr (prefix, found) ↦
      let (rest, split) = get_prefix-append (suc (length selector)) input prefix found in
      let same = (eq_ignore_ascii_case_iff prefix (c ∷ selector)).0 (ground (arith, e, found)) in
      (
        (λ empty. ground (arith, empty)),
        map to_ascii_lowercase rest,
        ap (map to_ascii_lowercase) split
            ∙ map-append to_ascii_lowercase prefix rest
            ∙ ap (λ p. p ++ map to_ascii_lowercase rest) same,
      )
]

-- Call data that starts with a selector: the selector is not empty, and its digits come first.
pub input_starts_with_selector-prefix :
    (input selector : Bytes)
    → input_starts_with_selector input selector ≡ true
    → (normal selector ≢ []) × (rest : Bytes) × (normal input ≡ normal selector ++ rest)
unfolding input_starts_with_selector normal
input_starts_with_selector-prefix input selector e =
    starts (strip_prefix input) (strip_prefix selector) e
