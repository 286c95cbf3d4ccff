-- ===== src/Config/Project/Framing.antt =====
-- The input of the fingerprint of crates/config/src/project.rs: it determines what went into it.
use superquery_node.Common.{
  u64_mod, length, All, ok, Bytes, ascii, ℕ, zero, suc, ◌*◌, ◌/◌, ◌%◌, ◌<◌, ◌≡◌, refl, sym, ◌≢◌,
  List, [], ◌∷◌, ◌++◌, arith,
}
use superquery_node.Config.Project.{
  be_onto, framed, FileSystem, ManifestLibrary, flatten, read_input, fingerprint_input,
  read_sources,
}

-- How many numbers `count` bytes hold.
abbrev capacity : ℕ → ℕ
capacity zero = 1
capacity (suc count) = 256 * capacity count

be_onto-injective :
    (count m n : ℕ) (s t : Bytes)
    → m < capacity count
    → n < capacity count
    → be_onto count m s ≡ be_onto count n t
    → (m ≡ n) × (s ≡ t)
unfolding be_onto
be_onto-injective zero m n s t h k e = (omega (arith, h, k), e)
be_onto-injective (suc count) m n s t h k e =
    let (high, low) =
      be_onto-injective count (m / 256) (n / 256) ((m % 256) ∷ s) ((n % 256) ∷ t) (omega (arith, h))
        (omega (arith, k)) e in
    let last : m % 256 ≡ n % 256 = ground (arith, low) in
    (omega (arith, high, last), ground (arith, low))

append-injective : (s t p q : Bytes) → length s ≡ length t → s ++ p ≡ t ++ q → (s ≡ t) × (p ≡ q)
append-injective [] [] p q l e = (refl, e)
append-injective [] (d ∷ t) p q l e = ground (arith, l)
append-injective (c ∷ s) [] p q l e = ground (arith, l)
append-injective (c ∷ s) (d ∷ t) p q l e =
    let (same, rest) = append-injective s t p q (ground (arith, l)) (ground (arith, e)) in
    (ground (arith, e, same), rest)

-- A text whose length fits the eight bytes in front of it.
abbrev pub IsFramed : Bytes → Type 0
IsFramed piece = length piece < u64_mod

be_onto-cons : (count n : ℕ) (s : Bytes) → be_onto (suc count) n s ≢ []
unfolding be_onto
be_onto-cons zero n s e = cc
be_onto-cons (suc count) n s e = be_onto-cons count (n / 256) ((n % 256) ∷ s) e

-- Texts of fewer than 2^64 bytes that are framed alike are the same texts.
pub framed-injective :
    (xs ys : List Bytes) → All IsFramed xs → All IsFramed ys → framed xs ≡ framed ys → xs ≡ ys
unfolding framed
framed-injective [] [] a b e = refl
framed-injective [] (y ∷ ys) a b e = elim (be_onto-cons 7 (length y) (y ++ framed ys) (sym e)) [ ]
framed-injective (x ∷ xs) [] a b e = elim (be_onto-cons 7 (length x) (x ++ framed xs) e) [ ]
framed-injective (x ∷ xs) (y ∷ ys) a b e =
    let (lengths, bytes) =
      be_onto-injective 8 (length x) (length y) (x ++ framed xs) (y ++ framed ys) a.0 b.0 e in
    let (same, rest) = append-injective x y (framed xs) (framed ys) lengths bytes in
    rw (same, framed-injective xs ys a.1 b.1 rest) refl

module _ {FilePath Manifest : Type 0} (files : FileSystem FilePath)
    (library : ManifestLibrary FilePath Manifest) (hash : Bytes → Bytes) where
  -- What a fingerprint is made of: the manifest's normal form, the schema and the assets.
  abbrev pub IsMadeOf : Manifest → FilePath → Bytes → Bytes → List (Bytes × Bytes) → Type 0
  IsMadeOf manifest root normalized schema assets =
      (library.to_vec manifest ≡ ok normalized)
      × (read_input files root (library.schema_file manifest) ≡ ok schema)
      × (read_sources files root (library.data_sources manifest) ≡ ok assets)

  abbrev pieces_of : Bytes → Bytes → List (Bytes × Bytes) → List Bytes
  pieces_of normalized schema assets =
      ascii "superquery-project-v1" ∷ normalized ∷ schema ∷ flatten files assets

  -- Two inputs of a fingerprint, framed, that are not the same and have one hash.
  abbrev pub Collide : Manifest → FilePath → Manifest → FilePath → Type 0
  Collide manifest root other elsewhere =
      (pieces pieces' : List Bytes) × (fingerprint_input files library hash manifest root
        ≡ ok pieces)
      × (fingerprint_input files library hash other elsewhere ≡ ok pieces')
      × (framed pieces ≢ framed pieces')
      × (hash (framed pieces) ≡ hash (framed pieces'))
