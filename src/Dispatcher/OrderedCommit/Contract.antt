-- ===== src/Dispatcher/OrderedCommit/Contract.antt =====
-- What one completion does to the reorder buffer of ordered_commit.rs, on every branch.
use superquery_node.Common.{
  ltb, ◌==◌, if◌then◌else◌, ==_iff, Bool-cases, u64_max, length, Map, insert, From, From-mono,
  insert-From, All-insert, ℕ, suc, ◌≤◌, ◌<◌, ◌≡◌, refl, inl, inr, true, false, not, ◌||◌, List, [],
  ◌++◌, arith,
}
use superquery_node.Dispatcher.OrderedCommit.{
  OrderedCommitBuffer, new, accept, complete_from, reset_to,
}
use superquery_node.Dispatcher.OrderedCommit.Release.{
  prefix, Bounded, release-prefix, prefix-append, Consecutive, prefix-Consecutive, prefix-From,
  prefix-All,
}

-- Buffered heights ascend, lie beyond the expected one, and stay below the top of u64.
pub record IsValid {ℓ} {T : Type ℓ} (buf : OrderedCommitBuffer T) : Type 0 where
  pub ahead : From (suc buf.next_expected) buf.pending
  pub bounded : Bounded buf.pending

module _ {ℓ} {T : Type ℓ} where
  abbrev pub settle :
      OrderedCommitBuffer T → List (ℕ × T) × ℕ × Map T → OrderedCommitBuffer T × List (ℕ × T)
  settle buf r = (record buf { next_expected = r.1; pending = r.2 }, r.0)

  pub new-IsValid : (start capacity : ℕ) → IsValid (new {T = T} start capacity)
  unfolding new
  new-IsValid start capacity = record { ahead = tt; bounded = tt }

  pub reset_to-IsValid :
      (buf : OrderedCommitBuffer T) (height : ℕ) → IsValid (reset_to buf height).0
  unfolding reset_to
  reset_to-IsValid buf height = record { ahead = tt; bounded = tt }

  module _ (buf : OrderedCommitBuffer T) (valid : IsValid buf) (height : ℕ) (value : T)
      (small : height < u64_max) where
    inserted-From :
        buf.next_expected ≤ height → From buf.next_expected (insert height value buf.pending)
    inserted-From le =
        insert-From buf.next_expected height value buf.pending le (
          From-mono buf.next_expected (suc buf.next_expected) buf.pending (omega arith) valid.ahead)

    inserted-Bounded : Bounded (insert height value buf.pending)
    inserted-Bounded = All-insert (λ e. e.0 < u64_max) height value buf.pending small valid.bounded

    pub accept-prefix :
        buf.next_expected ≤ height
        → accept buf height value
          ≡ settle buf (prefix buf.next_expected (insert height value buf.pending))
    unfolding accept
    accept-prefix le = rw (
        release-prefix (length (insert height value buf.pending)) buf.next_expected
          (insert height value buf.pending) (omega arith) (inserted-From le) inserted-Bounded)

    accept-IsValid : buf.next_expected ≤ height → IsValid (accept buf height value).0
    accept-IsValid le =
        let m = insert height value buf.pending in
        rw (accept-prefix le) (record {
          ahead = prefix-From buf.next_expected m (inserted-From le);
          bounded = prefix-All (λ e. e.0 < u64_max) buf.next_expected m inserted-Bounded;
        })

    accept-Consecutive :
        buf.next_expected ≤ height
        → Consecutive buf.next_expected
            (accept buf height value).1
            (accept buf height value).0.next_expected
    accept-Consecutive le =
        rw (accept-prefix le)
          (prefix-Consecutive buf.next_expected (insert height value buf.pending))

    accept-append :
        buf.next_expected ≤ height
        → (accept buf height value).1 ++ (accept buf height value).0.pending
          ≡ insert height value buf.pending
    accept-append le =
        rw (accept-prefix le) (prefix-append buf.next_expected (insert height value buf.pending))

  -- The three branches of `complete_from`.
  pub complete_from_cases {κ} :
      (P : OrderedCommitBuffer T × List (ℕ × T) → Type κ) (buf : OrderedCommitBuffer T)
      (generation height : ℕ) (value : T)
      → ((generation == buf.generation) ≡ false → P (buf, []))
      → (ltb height buf.next_expected ≡ true → P (buf, []))
      → (generation ≡ buf.generation → buf.next_expected ≤ height → P (accept buf height value))
      → P (complete_from buf generation height value)
  unfolding complete_from
  complete_from_cases P buf generation height value stale late fresh =
      elim (Bool-cases (generation == buf.generation)) [
        | inr old ↦ rw old (stale old)
        | inl now ↦ elim (Bool-cases (ltb height buf.next_expected)) [
          | inl below ↦ rw (now, below) (late below)
          | inr above ↦
              rw (now, above) (fresh ((==_iff generation buf.generation).0 now) (ground arith))
        ]
      ]

  -- Every completion of a height below u64::MAX keeps the buffer well formed.
  pub complete_from-IsValid :
      (buf : OrderedCommitBuffer T) (generation height : ℕ) (value : T)
      → IsValid buf
      → height < u64_max
      → IsValid (complete_from buf generation height value).0
  complete_from-IsValid buf generation height value valid small =
      complete_from_cases (λ r. IsValid r.0) buf generation height value (λ _. valid) (λ _. valid)
        (λ _ le. accept-IsValid buf valid height value small le)

  -- What a completion releases are consecutive heights from the expected one, and the height
  -- expected afterwards is the one behind them.
  pub complete_from-Consecutive :
      (buf : OrderedCommitBuffer T) (generation height : ℕ) (value : T)
      → IsValid buf
      → height < u64_max
      → Consecutive buf.next_expected
          (complete_from buf generation height value).1
          (complete_from buf generation height value).0.next_expected
  complete_from-Consecutive buf generation height value valid small =
      complete_from_cases (λ r. Consecutive buf.next_expected r.1 r.0.next_expected) buf generation
        height value (λ _. refl) (λ _. refl)
        (λ _ le. accept-Consecutive buf valid height value small le)

  -- No block is lost or made up: what is released, followed by what stays buffered, is what was
  -- buffered, with the new block in its place unless it is stale or already committed.
  pub complete_from-append :
      (buf : OrderedCommitBuffer T) (generation height : ℕ) (value : T)
      → IsValid buf
      → height < u64_max
      → (complete_from buf generation height value).1
          ++ (complete_from buf generation height value).0.pending
        ≡ (if not (generation == buf.generation) || ltb height buf.next_expected
            then buf.pending
            else insert height value buf.pending)
  complete_from-append buf generation height value valid small =
      complete_from_cases
        (λ r. r.1 ++ r.0.pending ≡ (
          if not (generation == buf.generation) || ltb height buf.next_expected
          then buf.pending
          else insert height value buf.pending))
        buf generation height value (λ old. rw old) (λ below. ground arith)
        (λ now le.
          let above : ltb height buf.next_expected ≡ false = ground arith in
          rw ((==_iff generation buf.generation).1 now, above)
            (accept-append buf valid height value small le))
