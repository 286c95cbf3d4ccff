-- ===== src/Common/Decimal.antt =====
-- `u64::to_string` and `str::parse::<u64>` on decimal text.
use Prim.Native.Nat.{ℕ, zero, suc, ◌+◌, ◌-◌, ◌*◌, ◌/◌, ◌%◌, ◌≤◌, ◌<◌}
use Prim.Native.Char.{Char, code}
use Prim.Native.String.{String}
use mathlib.Core.Path.{◌≡◌, refl, sym, ap, ◌∙◌}
use mathlib.Core.Logic.{inl, inr}
use mathlib.Core.Bool.{false, ◌&&◌}
use mathlib.Core.Option.{Option, none, some}
use native.Mathlib.Omega.{arith}
use superquery_node.Common.Tests.{ltb, leb, ◌==◌, if◌then◌else◌, ltb→lt, Bool-cases}
use superquery_node.Common.Text.{str_eq_iff}
use text.Mathlib.Text.{◌==◌ as str_eq}
use superquery_node.Common.Words.{u64_max}

digit : ℕ → Char
digit zero = "0"
digit (suc zero) = "1"
digit (suc (suc zero)) = "2"
digit (suc (suc (suc zero))) = "3"
digit (suc (suc (suc (suc zero)))) = "4"
digit (suc (suc (suc (suc (suc zero))))) = "5"
digit (suc (suc (suc (suc (suc (suc zero)))))) = "6"
digit (suc (suc (suc (suc (suc (suc (suc zero))))))) = "7"
digit (suc (suc (suc (suc (suc (suc (suc (suc zero)))))))) = "8"
digit _ = "9"

code-digit : (d : ℕ) → d < 10 → code (digit d) ≡ 48 + d
unfolding digit
code-digit zero h = refl
code-digit (suc zero) h = refl
code-digit (suc (suc zero)) h = refl
code-digit (suc (suc (suc zero))) h = refl
code-digit (suc (suc (suc (suc zero)))) h = refl
code-digit (suc (suc (suc (suc (suc zero))))) h = refl
code-digit (suc (suc (suc (suc (suc (suc zero)))))) h = refl
code-digit (suc (suc (suc (suc (suc (suc (suc zero))))))) h = refl
code-digit (suc (suc (suc (suc (suc (suc (suc (suc zero)))))))) h = refl
code-digit (suc (suc (suc (suc (suc (suc (suc (suc (suc zero))))))))) h = refl
code-digit (suc (suc (suc (suc (suc (suc (suc (suc (suc (suc d)))))))))) h = omega arith

-- The digits of `n` in front of `s`. Fuel `suc n` is enough: each step divides by ten.
unfoldable digits_onto : ℕ → ℕ → String → String
digits_onto zero n s = s
digits_onto (suc fuel) n s =
    let longer = digits_onto fuel (n / 10) (String.◌∷◌ (digit (n % 10)) s) in
    if ltb n 10 then String.◌∷◌ (digit n) s else longer

unfoldable pub to_string : ℕ → String
unfolding digits_onto digit
to_string n = digits_onto (suc n) n String.[]

-- Digits read from the left onto `acc`; a number past u64::MAX is an overflow error.
unfoldable pub read_digits : ℕ → String → Option ℕ
read_digits acc String.[] = some acc
read_digits acc (String.◌∷◌ c s) =
    let value = acc * 10 + (code c - 48) in
    let rest = read_digits value s in
    if leb 48 (code c) && leb (code c) 57 && leb value u64_max then rest else none

-- One leading `+` is accepted; no digit at all is an error.
unfoldable pub parse_u64 : String → Option ℕ
unfolding read_digits
parse_u64 String.[] = none
parse_u64 (String.◌∷◌ c String.[]) = read_digits 0 (String.◌∷◌ c String.[])
parse_u64 (String.◌∷◌ c (String.◌∷◌ d s)) =
    if code c == 43
    then read_digits 0 (String.◌∷◌ d s)
    else read_digits 0 (String.◌∷◌ c (String.◌∷◌ d s))

read_digits-digit :
    (acc d n : ℕ) (s : String)
    → d < 10
    → n ≡ acc * 10 + d
    → n ≤ u64_max
    → read_digits acc (String.◌∷◌ (digit d) s) ≡ read_digits n s
unfolding read_digits
read_digits-digit acc d n s h e k = ground (arith, code-digit d h)

read_digits-digits_onto :
    (fuel n : ℕ) (s : String)
    → n < fuel
    → n ≤ u64_max
    → read_digits 0 (digits_onto fuel n s) ≡ read_digits n s
unfolding digits_onto
read_digits-digits_onto zero n s h k = ground arith
read_digits-digits_onto (suc fuel) n s h k = elim (Bool-cases (ltb n 10)) [
  | inl lt ↦ rw lt (read_digits-digit 0 n n s (ltb→lt _ _ lt) (omega arith) k)
  | inr ge ↦
      rw
        (
          ge,
          read_digits-digits_onto fuel (n / 10) (String.◌∷◌ (digit (n % 10)) s) (ground arith)
              (omega arith),
        )
        (read_digits-digit (n / 10) (n % 10) n s (omega arith) (omega arith) k)
]

-- A printed number starts with a digit.
digits_onto_first :
    (fuel n : ℕ) (s : String)
    → (d : ℕ) × (t : String) × (d < 10) × (digits_onto (suc fuel) n s ≡ String.◌∷◌ (digit d) t)
unfolding digits_onto
digits_onto_first zero n s = elim (Bool-cases (ltb n 10)) [
  | inl lt ↦ (n, s, ltb→lt _ _ lt, rw lt refl)
  | inr ge ↦ (n % 10, s, omega arith, rw ge refl)
]
digits_onto_first (suc fuel) n s = elim (Bool-cases (ltb n 10)) [
  | inl lt ↦ (n, s, ltb→lt _ _ lt, rw lt refl)
  | inr ge ↦ rw ge (digits_onto_first fuel (n / 10) (String.◌∷◌ (digit (n % 10)) s))
]

parse_u64-digit :
    (d : ℕ) (t : String)
    → d < 10
    → parse_u64 (String.◌∷◌ (digit d) t) ≡ read_digits 0 (String.◌∷◌ (digit d) t)
unfolding parse_u64
parse_u64-digit d String.[] h = refl
parse_u64-digit d (String.◌∷◌ c t) h = ground (arith, code-digit d h)

-- Printing and reading back loses nothing.
pub parse_u64-to_string : (n : ℕ) → n ≤ u64_max → parse_u64 (to_string n) ≡ some n
unfolding to_string read_digits
parse_u64-to_string n h =
    let (d, t, small, e) = digits_onto_first n n String.[] in
    ap parse_u64 e
    ∙ parse_u64-digit d t small
    ∙ ap (read_digits 0) (sym e)
    ∙ read_digits-digits_onto (suc n) n String.[] (omega arith) h

pub to_string-nonempty : (n : ℕ) → n ≤ u64_max → str_eq (to_string n) String.[] ≡ false
unfolding parse_u64
to_string-nonempty n h = elim (Bool-cases (str_eq (to_string n) String.[])) [
  | inr e ↦ e
  | inl e ↦
      let same = (str_eq_iff (to_string n) String.[]).0 e in
      let printed = sym (parse_u64-to_string n h) ∙ ap parse_u64 same in ground (arith, printed)
]
