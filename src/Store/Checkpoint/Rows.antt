-- ===== src/Store/Checkpoint/Rows.antt =====
-- The table of headers of crates/store/src/checkpoint.rs: what is read of it, and what a deletion
-- leaves.
use superquery_node.Common.{
  ltb, leb, ◌==◌, if◌then◌else◌, le→leb, Bool-cases, i64_max, length, find, All, All-append,
  All-weaken, Map, lookup, From, lookup_below, pos, Result, ok, map_m, >>=-eq-ok, ok-injective,
  str_eq, ℕ, suc, ◌+◌, ◌≤◌, ◌<◌, ◌≡◌, refl, ap, ◌∙◌, inl, inr, Bool, ◌&&◌, Option, none, some, List,
  [], ◌∷◌, ◌++◌, append-nil, arith,
}
use superquery_node.Store.Checkpoint.{
  descending, BlockRow, StoredHeader, delete_final, stored_header, delete_above, select_descending,
  headers_descending, sql_height, row_to_stored_header, Database,
}
use superquery_node.Store.Error.{StoreError}

abbrev pub first_of {ℓ} : {A : Type ℓ} → Option A → Option A → Option A
first_of (some a) other = some a
first_of none other = other

find_append {ℓ} :
    {A : Type ℓ} (p : A → Bool) (xs ys : List A)
    → find p (xs ++ ys) ≡ first_of (find p xs) (find p ys)
find_append p [] ys = refl
find_append p (x ∷ xs) ys = ground (arith, find_append p xs ys)

abbrev pub at_height : ℕ → StoredHeader → Bool
at_height k header = header.height == k

abbrev pub stored : ℕ → Option BlockRow → Option StoredHeader
stored k none = none
stored k (some row) = some (stored_header (k, row))

-- With the rows in key order, a scan holds, of each height in the range, the row the table has
-- there, and no other height.
pub find-descending :
    (from to lo k : ℕ) (rows : Map BlockRow)
    → From lo rows
    → find (at_height k) (descending from to rows)
      ≡ (if leb k from && leb to k then stored k (lookup k rows) else none)
unfolding descending lookup stored_header
find-descending from to lo k [] f = ground arith
find-descending from to lo k ((h, row) ∷ rows) f =
    find_append (at_height k) (descending from to rows) _
    ∙ ground (arith, find-descending from to (suc h) k rows f.1, lookup_below k (suc h) rows f.1)

descending-All :
    (from to lo : ℕ) (rows : Map BlockRow)
    → From lo rows
    → All (λ header. (lo ≤ header.height) × (header.height ≤ from)) (descending from to rows)
unfolding descending stored_header
descending-All from to lo [] f = tt
descending-All from to lo ((h, row) ∷ rows) f =
    All-append _ (descending from to rows) _
      (All-weaken _ _ (descending from to rows) (λ header b. omega (arith, b.0, b.1))
        (descending-All from to (suc h) rows f.1))
      (elim (Bool-cases (leb h from && leb to h)) [
        | inl inside ↦ rw inside ((f.0, ground arith), tt)
        | inr outside ↦ rw outside tt
      ])

-- Heights that fall strictly, all of them below `hi`.
abbrev pub Falling : ℕ → List StoredHeader → Type 0
Falling hi [] = Unit
Falling hi (header ∷ headers) = (header.height < hi) × Falling header.height headers

Falling-append :
    (hi : ℕ) (xs : List StoredHeader) (x : StoredHeader)
    → Falling hi xs
    → x.height < hi
    → All (λ header. x.height < header.height) xs
    → Falling hi (xs ++ x ∷ [])
Falling-append hi [] x f h a = (h, tt)
Falling-append hi (y ∷ xs) x f h a = (f.0, Falling-append y.height xs x f.1 a.0 a.1)

pub descending-Falling :
    (from to lo : ℕ) (rows : Map BlockRow)
    → From lo rows
    → Falling (suc from) (descending from to rows)
unfolding descending stored_header
descending-Falling from to lo [] f = tt
descending-Falling from to lo ((h, row) ∷ rows) f =
    let rest = descending-Falling from to (suc h) rows f.1 in
    elim (Bool-cases (leb h from && leb to h)) [
      | inl inside ↦ rw inside (
          Falling-append (suc from) (descending from to rows) (stored_header (h, row)) rest
            (ground arith)
            (All-weaken _ _ (descending from to rows) (λ header b. omega (arith, b.0, b.1))
              (descending-All from to (suc h) rows f.1)))
      | inr outside ↦ rw (outside, append-nil (descending from to rows)) rest
    ]

-- A deletion keeps exactly the rows up to the height.
pub lookup-delete_above :
    (height k : ℕ) (rows : Map BlockRow)
    → lookup k (delete_above height rows).1 ≡ (if leb k height then lookup k rows else none)
unfolding delete_above lookup
lookup-delete_above height k [] = ground arith
lookup-delete_above height k ((h, row) ∷ rows) = ground (arith, lookup-delete_above height k rows)

-- With the rows in key order, pruning drops a row exactly if it is final and below the height.
pub lookup-delete_final :
    (height lo k : ℕ) (rows : Map BlockRow)
    → From lo rows
    → lookup k (delete_final height rows).1 ≡ elim (lookup k rows) [
      | none ↦ none
      | some row ↦ if ltb k height && str_eq row.finality_state "final" then none else some row
    ]
unfolding delete_final lookup
lookup-delete_final height lo k [] f = ground arith
lookup-delete_final height lo k ((h, row) ∷ rows) f =
    ground (arith, lookup-delete_final height (suc h) k rows f.1, lookup_below k (suc h) rows f.1)

-- Deletion counts the rows it takes.
pub length-delete_above :
    (height : ℕ) (rows : Map BlockRow)
    → let (deleted, rest) = delete_above height rows in deleted + length rest ≡ length rows
unfolding delete_above
length-delete_above height [] = refl
length-delete_above height ((h, row) ∷ rows) = ground (arith, length-delete_above height rows)

map_m-snoc {ℓ μ} :
    {A : Type ℓ} {B : Type μ} (f : A → Result StoreError B) (xs : List A) (x : A) (y : B)
    (ys : List B)
    → map_m f xs ≡ ok ys
    → f x ≡ ok y
    → map_m f (xs ++ x ∷ []) ≡ ok (ys ++ y ∷ [])
map_m-snoc f [] x y ys e h = rw h (ap (λ r. ok (r ++ y ∷ [])) (ok-injective e))
map_m-snoc f (a ∷ xs) x y ys e h =
    let (b, here, next) = >>=-eq-ok (f a) _ e in
    let (bs, there, last) = >>=-eq-ok (map_m f xs) _ next in
    rw (here, map_m-snoc f xs x y bs there h) (ap (λ r. ok (r ++ y ∷ [])) (ok-injective last))

-- Every selected row is decoded: no height of the table is negative.
pub select_descending-descending :
    (from to : ℕ) (rows : Map BlockRow)
    → map_m row_to_stored_header (select_descending from to rows) ≡ ok (descending from to rows)
unfolding select_descending descending row_to_stored_header
select_descending-descending from to [] = refl
select_descending-descending from to ((h, row) ∷ rows) =
    let rest = select_descending-descending from to rows in
    elim (Bool-cases (leb h from && leb to h)) [
      | inl inside ↦ rw inside (
          map_m-snoc row_to_stored_header (select_descending from to rows) (pos h, row)
            (stored_header (h, row)) (descending from to rows) rest refl)
      | inr outside ↦
          rw
            (
              outside,
              append-nil (select_descending from to rows),
              append-nil (descending from to rows),
            )
            rest
    ]

-- What a scan of the table gives: the heights fit the column, the query is answered, and the
-- headers are those of the selected rows.
pub headers_descending-ok :
    (query : Result StoreError (Unit {0})) (from to : ℕ) (db : Database)
    (headers : List StoredHeader)
    → headers_descending query from to db ≡ ok headers
    → (from ≤ i64_max) × (headers ≡ descending from to db.blocks)
unfolding headers_descending sql_height
headers_descending-ok query from to db headers e =
    ground (arith, e, select_descending-descending from to db.blocks)

-- A scan whose heights fit, and that is answered, gives them.
pub headers_descending-descending :
    (from to : ℕ) (db : Database)
    → from ≤ i64_max
    → to ≤ i64_max
    → headers_descending (ok tt) from to db ≡ ok (descending from to db.blocks)
unfolding headers_descending sql_height
headers_descending-descending from to db h k =
    rw (le→leb _ _ h, le→leb _ _ k) (select_descending-descending from to db.blocks)
