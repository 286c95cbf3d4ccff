-- ===== src/Config/Db/Decoding.antt =====
-- The percent-decoding of crates/config/src/db.rs: what it makes of an encoded text.
use superquery_node.Common.{
  ◌==◌, Bytes, is_utf8, ℕ, ◌+◌, ◌*◌, ◌≡◌, refl, true, false, some, [], ◌∷◌, arith,
}
use superquery_node.Config.Db.{decode_bytes, to_digit, push, decode, percent_decode, hex_pair}

abbrev percent : ℕ
percent = 37

-- The text `s` stands for the bytes `v`: any byte but a percent sign stands for itself, and behind
-- a percent sign two hexadecimal digits, in either case, stand for a byte.
pub data Encodes : Bytes → Bytes → Type 0 where
  nothing : Encodes [] []
  literal : {c : ℕ} {s v : Bytes} → (c == percent) ≡ false → Encodes s v → Encodes (c ∷ s) (c ∷ v)
  escape :
      {d e hi lo : ℕ} {s v : Bytes}
      → to_digit d ≡ some hi
      → to_digit e ≡ some lo
      → Encodes s v
      → Encodes (percent ∷ d ∷ e ∷ s) ((hi * 16 + lo) ∷ v)

decode_bytes-literal :
    (c : ℕ) (s v : Bytes)
    → (c == percent) ≡ false
    → decode_bytes s ≡ some v
    → decode_bytes (c ∷ s) ≡ some (c ∷ v)
unfolding decode_bytes push
decode_bytes-literal c [] v plain e = ground (arith, e)
decode_bytes-literal c (d ∷ []) v plain e = ground (arith, e)
decode_bytes-literal c (d ∷ f ∷ s) v plain e = ground (arith, plain, e)

decode_bytes-Encodes : (s v : Bytes) → Encodes s v → decode_bytes s ≡ some v
unfolding decode_bytes push hex_pair
decode_bytes-Encodes s v nothing = refl
decode_bytes-Encodes s v (literal {c} plain rest) =
    decode_bytes-literal c _ _ plain (decode_bytes-Encodes _ _ rest)
decode_bytes-Encodes s v (escape high low rest) = rw (high, low, decode_bytes-Encodes _ _ rest) refl

-- A text that encodes valid UTF-8 decodes to it.
pub decode-Encodes : (s v : Bytes) → Encodes s v → is_utf8 v ≡ true → decode s ≡ v
unfolding decode percent_decode
decode-Encodes s v encoded valid = ground (arith, decode_bytes-Encodes s v encoded, valid)
