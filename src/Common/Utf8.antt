-- ===== src/Common/Utf8.antt =====
-- Texts as the bytes of their UTF-8 encoding, and how `==` compares them.
use Prim.Native.Nat.{ℕ}
use Prim.Native.Char.{code}
use Prim.Native.String.{String}
use mathlib.Core.Path.{◌≡◌, refl}
use mathlib.Core.Logic.{◌↔◌}
use mathlib.Core.Bool.{Bool, true, false, ◌&&◌, ◌||◌}
use mathlib.Core.List.{List, [], ◌∷◌, ◌++◌}
use native.Mathlib.Omega.{arith}
use superquery_node.Common.Tests.{◌==◌, ltb, leb}

abbrev pub Bytes : Type 0
Bytes = List ℕ

-- The bytes of an ASCII text.
abbrev pub ascii : String → Bytes
ascii String.[] = []
ascii (String.◌∷◌ c s) = code c ∷ ascii s

-- `format!` of its pieces.
abbrev pub concat : List Bytes → Bytes
concat [] = []
concat (piece ∷ pieces) = piece ++ concat pieces

abbrev pub bytes_eq : Bytes → Bytes → Bool
bytes_eq [] [] = true
bytes_eq [] (d ∷ t) = false
bytes_eq (c ∷ s) [] = false
bytes_eq (c ∷ s) (d ∷ t) = c == d && bytes_eq s t

pub bytes_eq_iff : (s t : Bytes) → (bytes_eq s t ≡ true) ↔ (s ≡ t)
bytes_eq_iff [] [] = ((λ _. refl), (λ _. refl))
bytes_eq_iff [] (d ∷ t) = ((λ e. cc), (λ e. cc))
bytes_eq_iff (c ∷ s) [] = ((λ e. cc), (λ e. cc))
bytes_eq_iff (c ∷ s) (d ∷ t) =
    ((λ e. ground (arith, bytes_eq_iff s t)), (λ e. ground (arith, bytes_eq_iff s t)))

-- The bytes that go on a character, and those that may follow its first byte `a`.
unfoldable is_continuation : ℕ → Bool
is_continuation b = leb 128 b && ltb b 192

unfoldable is_second : ℕ → ℕ → Bool
unfolding is_continuation
is_second a b =
    is_continuation b
    && (a == 224 && leb 160 b
        || a == 237 && ltb b 160
        || a == 240 && leb 144 b
        || a == 244 && ltb b 144
        || ltb 224 a && ltb a 237
        || a == 238
        || a == 239
        || ltb 240 a && ltb a 244)

-- `String::from_utf8` takes the bytes.
unfoldable pub is_utf8 : Bytes → Bool
unfolding is_continuation is_second
is_utf8 [] = true
is_utf8 (a ∷ []) = ltb a 128
is_utf8 (a ∷ b ∷ []) = ltb a 128 && ltb b 128 || leb 194 a && ltb a 224 && is_continuation b
is_utf8 (a ∷ b ∷ c ∷ []) = elim (ltb a 128) [
  | true ↦ is_utf8 (b ∷ c ∷ [])
  | false ↦ elim (leb 194 a && ltb a 224 && is_continuation b) [
    | true ↦ ltb c 128
    | false ↦ leb 224 a && ltb a 240 && is_second a b && is_continuation c
  ]
]
is_utf8 (a ∷ b ∷ c ∷ d ∷ s) = elim (ltb a 128) [
  | true ↦ is_utf8 (b ∷ c ∷ d ∷ s)
  | false ↦ elim (leb 194 a && ltb a 224 && is_continuation b) [
    | true ↦ is_utf8 (c ∷ d ∷ s)
    | false ↦ elim (leb 224 a && ltb a 240 && is_second a b && is_continuation c) [
      | true ↦ is_utf8 (d ∷ s)
      | false ↦
          leb 240 a
          && ltb a 245
          && is_second a b
          && is_continuation c
          && is_continuation d
          && is_utf8 s
    ]
  ]
]
