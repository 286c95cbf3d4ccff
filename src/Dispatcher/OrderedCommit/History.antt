-- ===== src/Dispatcher/OrderedCommit/History.antt =====
-- Whole histories of completions in ordered_commit.rs: the buffer commits the unbroken run of what
-- has been delivered, in whatever order the blocks arrive.
use superquery_node.Common.{
  ltb, if◌then◌else◌, ==_iff, Bool-cases, u64_max, Map, insert, From, insert-From, All-insert, ℕ,
  ◌≤◌, ◌<◌, ◌≡◌, refl, inl, inr, true, false, List, [], ◌∷◌, ◌++◌, append-nil, append_assoc, arith,
}
use superquery_node.Dispatcher.OrderedCommit.{OrderedCommitBuffer, accept, complete, new}
use superquery_node.Dispatcher.OrderedCommit.Release.{
  prefix, Bounded, prefix-From, prefix-All, le-prefix, prefix-insert, extend,
}
use superquery_node.Dispatcher.OrderedCommit.Contract.{IsValid, accept-prefix, settle}

module _ {ℓ} {T : Type ℓ} where
  -- A consumer of the buffer: it completes each arrival and commits what comes out.
  unfoldable pub commit_all : OrderedCommitBuffer T → List (ℕ × T) → List (ℕ × T) × ℕ × Map T
  commit_all buf [] = ([], buf.next_expected, buf.pending)
  commit_all buf ((height, value) ∷ arrivals) =
      let (buf', released) = complete buf height value in extend released (commit_all buf' arrivals)

  -- What a history has delivered: a block counts unless its height is already committed.
  unfoldable pub deliver : ℕ → Map T → List (ℕ × T) → Map T
  deliver start seen [] = seen
  deliver start seen ((height, value) ∷ arrivals) =
      deliver start (if ltb height (prefix start seen).1 then seen else insert height value seen)
        arrivals

  -- The buffer holds what `seen` has behind the unbroken run that starts at `start`.
  record Holds (start : ℕ) (seen : Map T) (buf : OrderedCommitBuffer T) : Type ℓ where
    next : (prefix start seen).1 ≡ buf.next_expected
    rest : (prefix start seen).2 ≡ buf.pending
    sorted : From start seen
    small : Bounded seen

  Holds-IsValid :
      (start : ℕ) (seen : Map T) (buf : OrderedCommitBuffer T) → Holds start seen buf → IsValid buf
  Holds-IsValid start seen buf h = record {
    ahead = rw (← h.next, ← h.rest) (prefix-From start seen h.sorted);
    bounded = rw (← h.rest) (prefix-All (λ e. e.0 < u64_max) start seen h.small);
  }

  complete-late :
      (buf : OrderedCommitBuffer T) (height : ℕ) (value : T)
      → ltb height buf.next_expected ≡ true
      → complete buf height value ≡ (buf, [])
  unfolding complete
  complete-late buf height value late = rw ((==_iff buf.generation _).1 refl, late)

  complete-fresh :
      (buf : OrderedCommitBuffer T) (height : ℕ) (value : T)
      → ltb height buf.next_expected ≡ false
      → complete buf height value ≡ accept buf height value
  unfolding complete
  complete-fresh buf height value fresh = rw ((==_iff buf.generation _).1 refl, fresh)

  module _ (start : ℕ) (seen : Map T) (buf : OrderedCommitBuffer T) (h : Holds start seen buf)
      (height : ℕ) (value : T) (fresh : ltb height buf.next_expected ≡ false)
      (small : height < u64_max) where
    above : buf.next_expected ≤ height
    above = ground arith

    -- The run after the new block is the old run, followed by what this completion releases.
    prefix-accept :
        prefix start (insert height value seen)
        ≡ extend (prefix start seen).0 (prefix buf.next_expected (insert height value buf.pending))
    prefix-accept = rw (prefix-insert start height value seen (rw h.next above), h.next, h.rest)

    accept-eq :
        accept buf height value
        ≡ settle buf (prefix buf.next_expected (insert height value buf.pending))
    accept-eq = accept-prefix buf (Holds-IsValid start seen buf h) height value small above

    accept-Holds : Holds start (insert height value seen) (accept buf height value).0
    accept-Holds = record {
      next = rw (prefix-accept, accept-eq);
      rest = rw (prefix-accept, accept-eq);
      sorted =
          insert-From start height value seen (omega (arith, above, le-prefix start seen, h.next))
            h.sorted;
      small = All-insert (λ e. e.0 < u64_max) height value seen small h.small;
    }

    accept-released :
        (prefix start (insert height value seen)).0
        ≡ (prefix start seen).0 ++ (accept buf height value).1
    accept-released = rw (prefix-accept, accept-eq)

  new-Holds : (start capacity : ℕ) → Holds start [] (new start capacity)
  unfolding new prefix
  new-Holds start capacity = record { next = refl; rest = refl; sorted = tt; small = tt }

  commit_all_from :
      (start : ℕ) (seen : Map T) (buf : OrderedCommitBuffer T) (arrivals : List (ℕ × T))
      → Holds start seen buf
      → Bounded arrivals
      → extend (prefix start seen).0 (commit_all buf arrivals)
        ≡ prefix start (deliver start seen arrivals)
  unfolding commit_all deliver
  commit_all_from start seen buf [] h small = rw (← h.next, ← h.rest, append-nil)
  commit_all_from start seen buf ((height, value) ∷ arrivals) h small =
      elim (Bool-cases (ltb height buf.next_expected)) [
        | inl late ↦
            rw (h.next, late, complete-late buf height value late)
              (commit_all_from start seen buf arrivals h small.1)
        | inr fresh ↦
            rw
              (
                h.next,
                fresh,
                complete-fresh buf height value fresh,
                ← append_assoc,
                ← accept-released start seen buf h height value fresh small.0,
              )
              (commit_all_from start (insert height value seen) (accept buf height value).0 arrivals
                (accept-Holds start seen buf h height value fresh small.0) small.1)
      ]

  -- The buffer implements its specification: from a new buffer, the blocks committed, the height
  -- expected and the blocks kept back are those of the unbroken run, from the start height, of all
  -- blocks delivered so far (heights below u64::MAX).
  pub commit_all-deliver :
      (start capacity : ℕ) (arrivals : List (ℕ × T))
      → Bounded arrivals
      → commit_all (new start capacity) arrivals ≡ prefix start (deliver start [] arrivals)
  unfolding prefix
  commit_all-deliver start capacity arrivals small =
      commit_all_from start [] (new start capacity) arrivals (new-Holds start capacity) small
