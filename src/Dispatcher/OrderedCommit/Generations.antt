-- ===== src/Dispatcher/OrderedCommit/Generations.antt =====
-- Resets of ordered_commit.rs: work of an abandoned generation is inert.
use superquery_node.Common.{
  ◌==◌, Bool-cases, u64_max, wrapping_succ-eq, keep, All, All-weaken, ℕ, ◌+◌, ◌≤◌, ◌<◌, ◌≡◌, refl,
  ◌∙◌, inl, inr, Bool, false, List, [], ◌∷◌, ◌++◌, arith,
}
use superquery_node.Dispatcher.OrderedCommit.{OrderedCommitBuffer, accept, complete_from, reset_to}
use superquery_node.Dispatcher.OrderedCommit.Contract.{complete_from_cases}

-- A completion as a worker hands it back: the generation it captured, a height and a value.
pub record Work {ℓ} (T : Type ℓ) : Type ℓ where
  pub generation : ℕ
  pub height : ℕ
  pub value : T

module _ {ℓ} {T : Type ℓ} where
  unfoldable pub complete_work :
      OrderedCommitBuffer T → List (Work T) → OrderedCommitBuffer T × List (ℕ × T)
  complete_work buf [] = (buf, [])
  complete_work buf (w ∷ ws) =
      let (buf', released) = complete_from buf w.generation w.height w.value in
      let (buf'', more) = complete_work buf' ws in (buf'', released ++ more)

  abbrev pub of_generation : ℕ → Work T → Bool
  of_generation g w = w.generation == g

  complete_from-generation :
      (buf : OrderedCommitBuffer T) (generation height : ℕ) (value : T)
      → (complete_from buf generation height value).0.generation ≡ buf.generation
  unfolding accept
  complete_from-generation buf generation height value =
      complete_from_cases (λ r. r.0.generation ≡ buf.generation) buf generation height value
        (λ _. refl) (λ _. refl) (λ _ _. refl)

  complete_from-stale :
      (buf : OrderedCommitBuffer T) (generation height : ℕ) (value : T)
      → (generation == buf.generation) ≡ false
      → complete_from buf generation height value ≡ (buf, [])
  unfolding complete_from
  complete_from-stale buf generation height value stale = rw stale

  complete_work-of :
      (g : ℕ) (work : List (Work T)) (buf : OrderedCommitBuffer T)
      → buf.generation ≡ g
      → complete_work buf work ≡ complete_work buf (keep (of_generation g) work)
  unfolding complete_work
  complete_work-of g [] buf e = refl
  complete_work-of g (w ∷ ws) buf e = elim (Bool-cases (w.generation == g)) [
    | inl now ↦ rw (
      now,
      ← complete_work-of g ws (complete_from buf w.generation w.height w.value).0
          (complete_from-generation buf w.generation w.height w.value ∙ e),
    )
    | inr old ↦ rw (
      old,
      complete_from-stale buf w.generation w.height w.value (rw e old),
      ← complete_work-of g ws buf e,
    )
  ]

  -- Completions of other generations can be taken out of any interleaving: the buffer ends in the
  -- same state and releases the same blocks.
  pub complete_work-keep :
      (buf : OrderedCommitBuffer T) (work : List (Work T))
      → complete_work buf work ≡ complete_work buf (keep (of_generation buf.generation) work)
  complete_work-keep buf work = complete_work-of buf.generation work buf refl

  keep_none :
      (g : ℕ) (work : List (Work T))
      → All (λ w. w.generation < g) work
      → keep (of_generation g) work ≡ []
  keep_none g [] h = refl
  keep_none g (w ∷ ws) h = rw (differs, keep_none g ws h.1)
    where
      differs : (w.generation == g) ≡ false
      differs = ground (arith, h.0)

  -- After a reset the buffer is empty and expects the given height, and no work that was started
  -- before the reset commits or is buffered, however much of it completes late (with fewer than
  -- 2 ^ 64 - 1 resets).
  pub reset_to-inert :
      (buf : OrderedCommitBuffer T) (height : ℕ) (late : List (Work T))
      → buf.generation < u64_max
      → All (λ w. w.generation ≤ buf.generation) late
      → complete_work (reset_to buf height).0 late
        ≡ (record buf { next_expected = height; pending = []; generation = buf.generation + 1 }, [])
  unfolding reset_to complete_work
  reset_to-inert buf height late room old =
      complete_work-keep (reset_to buf height).0 late
      ∙ rw (
        wrapping_succ-eq buf.generation room,
        keep_none (buf.generation + 1) late (
            All-weaken (λ w. w.generation ≤ buf.generation) (λ w. w.generation < buf.generation + 1)
              late (λ w h. omega arith) old),
      )
