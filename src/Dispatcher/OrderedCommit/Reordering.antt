-- ===== src/Dispatcher/OrderedCommit/Reordering.antt =====
-- Why the order of delivery does not matter to ordered_commit.rs.
use mathlib.Core.List.{Permᴰ}
use superquery_node.Common.{
  ltb, ◌==◌, if◌then◌else◌, ltb→lt, lt→ltb, Bool-cases, u64_max, All, Map, insert, lookup, From,
  From-mono, insert-From, lookup-insert, insert_comm, ℕ, suc, ◌≤◌, ◌<◌, ◌≡◌, refl, sym, ◌∙◌, subst,
  ◌≢◌, inl, inr, true, false, none, some, List, [], ◌∷◌, arith,
}
use superquery_node.Dispatcher.OrderedCommit.{new}
use superquery_node.Dispatcher.OrderedCommit.Release.{prefix, Bounded, le-prefix}
use superquery_node.Dispatcher.OrderedCommit.History.{commit_all, deliver, commit_all-deliver}

module _ {ℓ} {T : Type ℓ} where
  -- Every height is delivered at most once.
  abbrev pub Distinct : List (ℕ × T) → Type 0
  Distinct [] = Unit
  Distinct (e ∷ es) = All (λ f. f.0 ≢ e.0) es × Distinct es

  absorb : ℕ → Map T → List (ℕ × T) → Map T
  absorb start seen [] = seen
  absorb start seen ((height, value) ∷ arrivals) =
      absorb start (if ltb height start then seen else insert height value seen) arrivals

  abbrev Absent : Map T → List (ℕ × T) → Type ℓ
  Absent seen = All λ e. lookup e.0 seen ≡ none

  Absent-nil : (xs : List (ℕ × T)) → Absent [] xs
  unfolding lookup
  Absent-nil [] = tt
  Absent-nil (e ∷ es) = (refl, Absent-nil es)

  Absent-insert :
      (height : ℕ) (value : T) (seen : Map T) (xs : List (ℕ × T))
      → Absent seen xs
      → All (λ f. f.0 ≢ height) xs
      → Absent (insert height value seen) xs
  Absent-insert height value seen [] a d = tt
  Absent-insert height value seen (e ∷ es) a d =
      (lookup-insert height e.0 value seen ∙ miss, Absent-insert height value seen es a.1 d.1)
    where
      other : (e.0 == height) ≡ false
      other = ground (arith, d.0)

      miss : (if e.0 == height then some value else lookup e.0 seen) ≡ none
      miss = rw other a.0

  -- Below the height behind the run every height from `start` is present.
  prefix_absent :
      (start height : ℕ) (seen : Map T)
      → From start seen
      → start ≤ height
      → lookup height seen ≡ none
      → (prefix start seen).1 ≤ height
  unfolding prefix lookup
  prefix_absent start height [] f le e = le
  prefix_absent start height ((k, v) ∷ m) f le e = elim (Bool-cases (height == start)) [
    | inl p ↦ ground arith
    | inr q ↦ ground (arith, prefix_absent (suc start) height m, From-mono (suc start) (suc k) m)
  ]

  deliver-absorb :
      (start : ℕ) (seen : Map T) (arrivals : List (ℕ × T))
      → From start seen
      → Absent seen arrivals
      → Distinct arrivals
      → deliver start seen arrivals ≡ absorb start seen arrivals
  unfolding deliver absorb
  deliver-absorb start seen [] f a d = refl
  deliver-absorb start seen ((height, value) ∷ arrivals) f a d =
      elim (Bool-cases (ltb height start)) [
        | inl low ↦
            let late : ltb height (prefix start seen).1 ≡ true =
              lt→ltb _ _ (omega (arith, ltb→lt _ _ low, le-prefix start seen)) in
            rw (low, late) (deliver-absorb start seen arrivals f a.1 d.1)
        | inr high ↦
            let le : start ≤ height = ground arith in
            let above = prefix_absent start height seen f le a.0 in
            let fresh : ltb height (prefix start seen).1 ≡ false = ground arith in
            rw (high, fresh)
              (deliver-absorb start (insert height value seen) arrivals
                (insert-From start height value seen le f)
                (Absent-insert height value seen arrivals a.1 d.0) d.1)
      ]

  absorb_swap :
      (start : ℕ) (seen : Map T) (a b : ℕ × T)
      → a.0 ≢ b.0
      → (if ltb b.0 start
          then (if ltb a.0 start then seen else insert a.0 a.1 seen)
          else insert b.0 b.1 (if ltb a.0 start then seen else insert a.0 a.1 seen))
        ≡ (if ltb a.0 start
            then (if ltb b.0 start then seen else insert b.0 b.1 seen)
            else insert a.0 a.1 (if ltb b.0 start then seen else insert b.0 b.1 seen))
  absorb_swap start seen a b ne = elim (Bool-cases (ltb a.0 start)) [
    | inl p ↦ rw p
    | inr p ↦ elim (Bool-cases (ltb b.0 start)) [
      | inl q ↦ rw (p, q)
      | inr q ↦ rw (p, q) (insert_comm b.0 a.0 b.1 a.1 seen (λ e. ne (sym e)))
    ]
  ]

  All-perm {κ} : (P : ℕ × T → Type κ) {xs ys : List (ℕ × T)} → Permᴰ xs ys → All P xs → All P ys
  All-perm P Permᴰ.nil h = h
  All-perm P (Permᴰ.cons e p) h = (subst P e h.0, All-perm P p h.1)
  All-perm P (Permᴰ.swap e f) h = (subst P f h.1.0, (subst P e h.0, h.1.1))
  All-perm P (Permᴰ.trans p q) h = All-perm P q (All-perm P p h)

  Distinct-perm : {xs ys : List (ℕ × T)} → Permᴰ xs ys → Distinct xs → Distinct ys
  Distinct-perm Permᴰ.nil d = d
  Distinct-perm (Permᴰ.cons {a = a} {l₂ = l} e p) d =
      subst (λ x. Distinct (x ∷ l)) e (All-perm (λ f. f.0 ≢ a.0) p d.0, Distinct-perm p d.1)
  Distinct-perm (Permᴰ.swap {a = a} {b = b} {b' = b'} {l = l} e f) d =
      subst (λ x. Distinct (x ∷ b' ∷ l)) f
        (subst (λ y. Distinct (b ∷ y ∷ l)) e (((λ q. d.0.0 (sym q)), d.1.0), (d.0.1, d.1.1)))
  Distinct-perm (Permᴰ.trans p q) d = Distinct-perm q (Distinct-perm p d)

  absorb-perm :
      (start : ℕ) {xs ys : List (ℕ × T)}
      → Permᴰ xs ys
      → (seen : Map T) → Distinct xs
      → absorb start seen xs ≡ absorb start seen ys
  unfolding absorb
  absorb-perm start Permᴰ.nil seen d = refl
  absorb-perm start (Permᴰ.cons {a = a} {l₁ = l} e p) seen d =
      rw (← e) (absorb-perm start p (if ltb a.0 start then seen else insert a.0 a.1 seen) d.1)
  absorb-perm start (Permᴰ.swap {a = a} {b = b} {l = l} e f) seen d =
      rw (← e, ← f, absorb_swap start seen a b (λ q. d.0.0 (sym q)))
  absorb-perm start (Permᴰ.trans p q) seen d =
      absorb-perm start p seen d ∙ absorb-perm start q seen (Distinct-perm p d)

  -- Every order of arrival of the same blocks, each height once and below u64::MAX, commits the
  -- same blocks in the same order, and leaves the same height expected and the same blocks
  -- buffered.
  pub commit_all-perm :
      (start capacity : ℕ) {xs ys : List (ℕ × T)}
      → Permᴰ xs ys
      → Distinct xs
      → Bounded xs
      → commit_all (new start capacity) xs ≡ commit_all (new start capacity) ys
  commit_all-perm start capacity {xs} {ys} p d small = rw (
    commit_all-deliver start capacity xs small,
    commit_all-deliver start capacity ys (All-perm (λ e. e.0 < u64_max) p small),
    delivered,
  )
    where
      delivered : deliver start [] xs ≡ deliver start [] ys
      delivered =
          deliver-absorb start [] xs tt (Absent-nil xs) d
          ∙ absorb-perm start p [] d
          ∙ sym (deliver-absorb start [] ys tt (Absent-nil ys) (Distinct-perm p d))
