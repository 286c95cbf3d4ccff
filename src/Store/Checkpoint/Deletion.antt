-- ===== src/Store/Checkpoint/Deletion.antt =====
-- How many headers a deletion takes of a scan, in crates/store/src/checkpoint.rs.
use superquery_node.Common.{
  ltb, leb, ◌==◌, if◌then◌else◌, Bool-cases, length, find, All, Map, From, From-mono, ℕ, suc, ◌+◌,
  ◌≤◌, ◌<◌, ◌≡◌, refl, inl, inr, Bool, ◌&&◌, none, some, List, [], ◌∷◌, ◌++◌, arith,
}
use superquery_node.Store.Checkpoint.{
  descending, BlockRow, StoredHeader, delete_above, stored_header,
}
use superquery_node.Store.Checkpoint.Rows.{Falling, at_height}

abbrev pub count {ℓ} : {A : Type ℓ} → (A → Bool) → List A → ℕ
count p [] = 0
count p (x ∷ xs) = if p x then suc (count p xs) else count p xs

count_append {ℓ} :
    {A : Type ℓ} (p : A → Bool) (xs ys : List A) → count p (xs ++ ys) ≡ count p xs + count p ys
count_append p [] ys = omega arith
count_append p (x ∷ xs) ys = ground (arith, count_append p xs ys)

abbrev pub above_height : ℕ → StoredHeader → Bool
above_height k header = ltb k header.height

-- Of rows that a scan covers from the top, a deletion takes as many as the scan has above it.
pub delete_above-descending :
    (from to lo height : ℕ) (rows : Map BlockRow)
    → All (λ e. e.0 ≤ from) rows
    → to ≤ height
    → (delete_above height rows).0 ≡ count (above_height height) (descending from to rows)
unfolding delete_above descending stored_header
delete_above-descending from to lo height [] a h = refl
delete_above-descending from to lo height ((k, row) ∷ rows) a h =
    let rest = delete_above-descending from to lo height rows a.1 h in
    ground (
      arith,
      a.0,
      rest,
      count_append (above_height height) (descending from to rows)
          (if leb k from && leb to k then stored_header (k, row) ∷ [] else []),
    )

count_below :
    (hi : ℕ) (headers : List StoredHeader)
    → Falling hi headers
    → (k : ℕ) → hi ≤ suc k
    → count (above_height k) headers ≡ 0
count_below hi [] f k h = refl
count_below hi (header ∷ headers) f k h =
    ground (arith, f.0, count_below header.height headers f.1 k (omega (arith, f.0)))

-- Of a falling list, those above a member are those in front of it.
pub count_in_front :
    (hi : ℕ) (above : List StoredHeader) (header : StoredHeader) (below : List StoredHeader)
    → Falling hi (above ++ header ∷ below)
    → (header.height < hi)
      × (count (above_height header.height) (above ++ header ∷ below) ≡ length above)
count_in_front hi [] header below f =
    (f.0, ground (arith, count_below header.height below f.1 header.height (omega arith)))
count_in_front hi (first ∷ above) header below f =
    let (lower, counted) = count_in_front first.height above header below f.1 in
    (omega (arith, f.0, lower), ground (arith, lower, counted))

-- The first of a falling list at its own height is a member found there.
pub find_in_front :
    (hi : ℕ) (above : List StoredHeader) (header : StoredHeader) (below : List StoredHeader)
    → Falling hi (above ++ header ∷ below)
    → find (at_height header.height) (above ++ header ∷ below) ≡ some header
find_in_front hi [] header below f = ground arith
find_in_front hi (first ∷ above) header below f = ground (
  arith,
  (count_in_front first.height above header below f.1).0,
  find_in_front first.height above header below f.1,
)

find_below :
    (hi : ℕ) (headers : List StoredHeader) (k : ℕ)
    → Falling hi headers
    → hi ≤ k
    → find (at_height k) headers ≡ none
find_below hi [] k f h = refl
find_below hi (header ∷ headers) k f h =
    ground (arith, f.0, find_below header.height headers k f.1 (omega (arith, f.0)))

-- A member at the top of a falling list is its head.
pub find_at_top :
    (k : ℕ) (headers : List StoredHeader) (header : StoredHeader)
    → Falling (suc k) headers
    → find (at_height k) headers ≡ some header
    → (rest : List StoredHeader) × (headers ≡ header ∷ rest)
find_at_top k [] header f e = ground arith
find_at_top k (first ∷ rest) header f e = elim (Bool-cases (first.height == k)) [
  | inl same ↦ (rest, ground (arith, e, same))
  | inr other ↦ ground (arith, e, other, f.0, find_below first.height rest k f.1 (ground arith))
]

pub From-delete_above :
    (height lo : ℕ) (rows : Map BlockRow) → From lo rows → From lo (delete_above height rows).1
unfolding delete_above
From-delete_above height lo [] f = tt
From-delete_above height lo ((h, row) ∷ rows) f =
    let rest = From-delete_above height (suc h) rows f.1 in
    elim (Bool-cases (ltb height h)) [
      | inl gone ↦ rw gone (From-mono lo (suc h) _ (omega (arith, f.0)) rest)
      | inr kept ↦ rw kept (f.0, rest)
    ]
