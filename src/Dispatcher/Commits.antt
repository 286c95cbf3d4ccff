-- ===== src/Dispatcher/Commits.antt =====
-- What `TokioDispatcher` hands to the committer.
use superquery_node.Common.{
  ltb, ◌==◌, Bool-cases, u64_max, All, All-split, All-insert, ℕ, suc, ◌<◌, ◌≡◌, refl, ◌∙◌, inl, inr,
  not, ◌||◌, List, [], ◌∷◌, ◌++◌, map,
}
use superquery_node.Dispatcher.OrderedCommit.Release.{Consecutive}
use superquery_node.Dispatcher.OrderedCommit.Contract.{
  IsValid, complete_from-append, complete_from-Consecutive, complete_from-IsValid,
}
use superquery_node.Dispatcher.{WorkerOutput, TokioDispatcher, take_committable, next_expected}
use superquery_node.Dispatcher.OrderedCommit.{OrderedCommitBuffer, complete_from}

module _ {Op Source : Type 0} where
  abbrev OwnHeight : ℕ × WorkerOutput Op Source → Type 0
  OwnHeight e = e.1.height ≡ e.0

  -- The buffer is well formed, and each buffered output is filed under its own height.
  pub record IsSound (d : TokioDispatcher Op Source) : Type 0 where
    pub valid : IsValid d.buffer
    pub filed : All OwnHeight d.buffer.pending

  -- The outputs are of the heights `n`, `n + 1`, … up to `n'`, exclusively.
  abbrev pub InOrder : ℕ → List (WorkerOutput Op Source) → ℕ → Type 0
  InOrder n [] n' = n ≡ n'
  InOrder n (o ∷ os) n' = (o.height ≡ n) × InOrder (suc n) os n'

  InOrder-map :
      (n n' : ℕ) (es : List (ℕ × WorkerOutput Op Source))
      → Consecutive n es n'
      → All OwnHeight es
      → InOrder n (map (λ e. e.1) es) n'
  InOrder-map n n' [] c o = c
  InOrder-map n n' (e ∷ es) c o = (o.0 ∙ c.0, InOrder-map (suc n) n' es c.1 o.1)

  module _ (d : TokioDispatcher Op Source) (generation : ℕ) (output : WorkerOutput Op Source)
      (sound : IsSound d) (small : output.height < u64_max) where
    abbrev completed :
        OrderedCommitBuffer (WorkerOutput Op Source) × List (ℕ × WorkerOutput Op Source)
    completed = complete_from d.buffer generation output.height output

    filed_after : All OwnHeight (completed.1 ++ completed.0.pending)
    filed_after =
        rw (complete_from-append d.buffer generation output.height output sound.valid small)
          (elim (Bool-cases
            (not (generation == d.buffer.generation) || ltb output.height d.buffer.next_expected)) [
              | inl refused ↦ rw refused sound.filed
              | inr accepted ↦
                  rw accepted
                    (All-insert OwnHeight output.height output d.buffer.pending refl sound.filed)
            ])

    -- The outputs handed over for commit are those of consecutive heights from the expected one,
    -- each at its own height, and the dispatcher stays sound: a height is never skipped or
    -- repeated.
    pub take_committable-InOrder :
        InOrder
          (next_expected d)
          (take_committable d generation output).1
          (next_expected (take_committable d generation output).0)
        × IsSound (take_committable d generation output).0
    unfolding take_committable next_expected
    take_committable-InOrder =
        let (out, rest) = All-split OwnHeight completed.1 completed.0.pending filed_after in
        (
          InOrder-map d.buffer.next_expected completed.0.next_expected completed.1
              (complete_from-Consecutive d.buffer generation output.height output sound.valid small)
              out,
          record {
            valid =
                complete_from-IsValid d.buffer generation output.height output sound.valid small;
            filed = rest;
          },
        )
