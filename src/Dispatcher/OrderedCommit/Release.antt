-- ===== src/Dispatcher/OrderedCommit/Release.antt =====
-- The release loop of ordered_commit.rs against a plain recursion on the sorted entries.
use superquery_node.Common.{
  ltb, ◌==◌, if◌then◌else◌, ==_iff, Bool-cases, u64_max, wrapping_succ, wrapping_succ-eq, length,
  All, Map, insert, lookup, remove, From, From-mono, lookup_below, ℕ, zero, suc, ◌≤◌, ◌<◌, ◌≡◌,
  refl, sym, subst, inl, inr, true, false, none, some, List, [], ◌∷◌, ◌++◌, arith,
}
use superquery_node.Dispatcher.OrderedCommit.{release}

module _ {ℓ} {T : Type ℓ} where
  -- The longest run of consecutive heights from `n`, the height after it, and the entries behind
  -- it.
  unfoldable pub prefix : ℕ → Map T → List (ℕ × T) × ℕ × Map T
  prefix n [] = ([], n, [])
  prefix n ((k, v) ∷ m) =
      let (out, n', rest) = prefix (suc n) m in
      if n == k then ((n, v) ∷ out, n', rest) else ([], n, (k, v) ∷ m)

  -- Every key is below the top of the range, so the counter does not wrap.
  abbrev pub Bounded : Map T → Type 0
  Bounded = All λ e. e.0 < u64_max

  abbrev add_first : ℕ × T → List (ℕ × T) × ℕ × Map T → List (ℕ × T) × ℕ × Map T
  add_first e r = (e ∷ r.0, r.1, r.2)

  release_more :
      (fuel n : ℕ) (m : Map T) {v : T}
      → lookup n m ≡ some v
      → release (suc fuel) n m ≡ add_first (n, v) (release fuel (wrapping_succ n) (remove n m))
  unfolding release
  release_more fuel n m e = rw (e, release)

  release_done : (fuel n : ℕ) (m : Map T) → lookup n m ≡ none → release (suc fuel) n m ≡ ([], n, m)
  unfolding release
  release_done fuel n m e = rw (e, release)

  prefix_more :
      (n k : ℕ) (v : T) (m : Map T)
      → (n == k) ≡ true
      → prefix n ((k, v) ∷ m) ≡ add_first (n, v) (prefix (suc n) m)
  unfolding prefix
  prefix_more n k v m e = rw e

  prefix_done :
      (n k : ℕ) (v : T) (m : Map T) → (n == k) ≡ false → prefix n ((k, v) ∷ m) ≡ ([], n, (k, v) ∷ m)
  unfolding prefix
  prefix_done n k v m e = rw e

  remove_head : (n k : ℕ) (v : T) (m : Map T) → (n == k) ≡ true → remove n ((k, v) ∷ m) ≡ m
  unfolding remove
  remove_head n k v m e = rw e

  lookup_head : (n k : ℕ) (v : T) (m : Map T) → (n == k) ≡ true → lookup n ((k, v) ∷ m) ≡ some v
  unfolding lookup
  lookup_head n k v m e = rw e

  -- With one round for each entry the loop ends by its own test, and has released the whole run.
  pub release-prefix :
      (fuel n : ℕ) (m : Map T)
      → length m ≤ fuel
      → From n m
      → Bounded m
      → release fuel n m ≡ prefix n m
  unfolding release prefix lookup
  release-prefix zero n [] h f b = refl
  release-prefix zero n ((k, v) ∷ m) h f b = absurd (omega arith)
  release-prefix (suc fuel) n [] h f b = release_done fuel n [] refl
  release-prefix (suc fuel) n ((k, v) ∷ m) h f b = elim (Bool-cases (n == k)) [
    | inl e ↦
        let same = (==_iff n k).0 e in
        let step : wrapping_succ n ≡ suc n = omega (arith, wrapping_succ-eq n) in
        rw (
          release_more fuel n _ (lookup_head n k v m e),
          prefix_more n k v m e,
          remove_head n k v m e,
          step,
          release-prefix fuel (suc n) m (omega arith)
              (From-mono (suc n) (suc k) m (omega arith) f.1) b.1,
        )
    | inr e ↦
        let later : n < k = ground arith in
        rw (
          prefix_done n k v m e,
          release_done fuel n _ (lookup_below n k ((k, v) ∷ m) (omega arith, f.1) later),
        )
  ]

  -- The run is cut off the front of the entries, in order.
  pub prefix-append : (n : ℕ) (m : Map T) → (prefix n m).0 ++ (prefix n m).2 ≡ m
  unfolding prefix
  prefix-append n [] = refl
  prefix-append n ((k, v) ∷ m) = elim (Bool-cases (n == k)) [
    | inl e ↦ rw (prefix_more n k v m e, prefix-append (suc n) m, (==_iff n k).0 e)
    | inr e ↦ rw (prefix_done n k v m e)
  ]

  -- The heights of a list are `n`, `n + 1`, … and the height after them is `n'`.
  abbrev pub Consecutive : ℕ → List (ℕ × T) → ℕ → Type 0
  Consecutive n [] n' = n ≡ n'
  Consecutive n (e ∷ es) n' = (e.0 ≡ n) × Consecutive (suc n) es n'

  pub prefix-Consecutive : (n : ℕ) (m : Map T) → Consecutive n (prefix n m).0 (prefix n m).1
  unfolding prefix
  prefix-Consecutive n [] = refl
  prefix-Consecutive n ((k, v) ∷ m) = elim (Bool-cases (n == k)) [
    | inl e ↦ rw (prefix_more n k v m e) (refl, prefix-Consecutive (suc n) m)
    | inr e ↦ rw (prefix_done n k v m e) refl
  ]

  -- What stays behind is beyond the next height: the loop stops at a gap only.
  pub prefix-From : (n : ℕ) (m : Map T) → From n m → From (suc (prefix n m).1) (prefix n m).2
  unfolding prefix
  prefix-From n [] f = tt
  prefix-From n ((k, v) ∷ m) f = elim (Bool-cases (n == k)) [
    | inl e ↦
        rw (prefix_more n k v m e) (prefix-From (suc n) m (rw (sym ((==_iff n k).0 e)) at f.1))
    | inr e ↦ rw (prefix_done n k v m e) (ground arith, f.1)
  ]

  pub prefix-All {κ} : (P : ℕ × T → Type κ) (n : ℕ) (m : Map T) → All P m → All P (prefix n m).2
  unfolding prefix
  prefix-All P n [] a = tt
  prefix-All P n ((k, v) ∷ m) a = elim (Bool-cases (n == k)) [
    | inl e ↦ rw (prefix_more n k v m e) (prefix-All P (suc n) m a.1)
    | inr e ↦ rw (prefix_done n k v m e) a
  ]

  pub le-prefix : (n : ℕ) (m : Map T) → n ≤ (prefix n m).1
  unfolding prefix
  le-prefix n [] = omega arith
  le-prefix n ((k, v) ∷ m) = elim (Bool-cases (n == k)) [
    | inl e ↦ rw (prefix_more n k v m e) (omega (arith, le-prefix (suc n) m))
    | inr e ↦ rw (prefix_done n k v m e) (omega arith)
  ]

  abbrev pub extend : List (ℕ × T) → List (ℕ × T) × ℕ × Map T → List (ℕ × T) × ℕ × Map T
  extend es r = (es ++ r.0, r.1, r.2)

  insert_after :
      (h k : ℕ) (v w : T) (m : Map T) → k < h → insert h v ((k, w) ∷ m) ≡ (k, w) ∷ insert h v m
  unfolding insert
  insert_after h k v w m lt = rw (ge, other)
    where
      ge : ltb h k ≡ false
      ge = ground arith

      other : (h == k) ≡ false
      other = ground arith

  -- An entry at or above the height after the run changes only what follows the run.
  pub prefix-insert :
      (n h : ℕ) (v : T) (m : Map T)
      → (prefix n m).1 ≤ h
      → prefix n (insert h v m)
        ≡ extend (prefix n m).0 (prefix (prefix n m).1 (insert h v (prefix n m).2))
  unfolding prefix
  prefix-insert n h v [] le = refl
  prefix-insert n h v ((k, w) ∷ m) le = elim (Bool-cases (n == k)) [
    | inl e ↦
        let step = prefix_more n k w m e in
        let le' : (prefix (suc n) m).1 ≤ h = subst (λ r. r.1 ≤ h) step le in
        let lt : k < h = omega (arith, le-prefix (suc n) m, (==_iff n k).0 e) in
        rw (
          step,
          insert_after h k v w m lt,
          prefix_more n k w (insert h v m) e,
          prefix-insert (suc n) h v m le',
        )
    | inr e ↦ rw (prefix_done n k w m e)
  ]
