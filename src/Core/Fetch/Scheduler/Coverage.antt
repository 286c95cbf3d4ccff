-- ===== src/Core/Fetch/Scheduler/Coverage.antt =====
-- The promise of the fetch loop of scheduler.rs to its sink.
use superquery_node.Common.{
  ◌==◌, Bool-cases, u64_max, any, All, ℕ, suc, ◌≤◌, ◌<◌, ◌≡◌, refl, ap, ◌∙◌, inl, inr, true, false,
  Option, some, List, [], ◌∷◌, map, arith, dec_lt,
}
use superquery_node.ChainApi.Block.{GenericBlock}
use superquery_node.Core.Error.{CoreError}
use superquery_node.Core.Fetch.Range.{RangePlan, is_bypassed}
use superquery_node.Core.Fetch.Scheduler.{FetchScheduler, is_complete}
use superquery_node.Core.Fetch.Scheduler.Progress.{Covers, journal, InStep, run_rounds-InStep}
use superquery_node.Core.Fetch.Scheduler.Run.{Round, run, Outcome, finished}
use superquery_node.Core.Fetch.Scheduler.Plan.{IsPlanned, BelowTop}
use superquery_node.Core.Fetch.Scheduler.Finish.{is_complete-Gap, run_rounds-EndsComplete}

Covers-any :
    (plan : RangePlan) (n : ℕ) (hs : List ℕ) (n' h : ℕ)
    → Covers plan n hs n'
    → n ≤ h
    → h < n'
    → is_bypassed plan h ≡ false
    → any (λ k. h == k) hs ≡ true
Covers-any plan n [] n' h c lo hi clear = absurd (omega arith)
Covers-any plan n (k ∷ hs) n' h (le, gap, free, c) lo hi clear = elim (Bool-cases (h == k)) [
  | inl here ↦ rw here
  | inr other ↦
      let later : suc k ≤ h = elim (dec_lt h k) [
        | yes between ↦ absurd (ground (arith, gap h lo between))
        | no beyond ↦ ground arith
      ] in
      rw other (Covers-any plan (suc k) hs n' h c later hi clear)
]

module _ {B : Type 0} (verdict : List (GenericBlock B) → GenericBlock B → Option CoreError)
    (s : FetchScheduler) (rounds : List (Round B)) where
  abbrev result : FetchScheduler × List (GenericBlock B) × Outcome
  result = run (journal verdict) s [] rounds

  run-InStep :
      IsPlanned s
      → All (λ r. BelowTop r.latest) rounds
      → InStep verdict s.config s.plan s.next_height result.0 result.1
  unfolding run
  run-InStep p small = elim (Bool-cases (s.config.batch_size == 0)) [
    | inl empty ↦ rw empty fresh
    | inr positive ↦
        rw positive
          (run_rounds-InStep verdict s.config s.plan s.next_height rounds s [] small fresh)
  ]
    where
      fresh : InStep verdict s.config s.plan s.next_height s []
      fresh = record { planned = p; same = refl; same_config = refl; covers = refl }

  -- A run that ends by itself had a batch size to work with, and ends complete.
  positive_of : result.2 ≡ finished → 0 < s.config.batch_size
  unfolding run
  positive_of done = ground arith

  complete_of : 0 < s.config.batch_size → result.2 ≡ finished → is_complete result.0 ≡ true
  unfolding run
  complete_of positive done =
      let some_batch : (s.config.batch_size == 0) ≡ false = ground arith in
      rw (some_batch, run)
        (run_rounds-EndsComplete (journal verdict) rounds s [] (rw some_batch at done))

  -- Whatever the chain answers, wherever the run is cancelled or the sink refuses a block: the
  -- blocks that the sink has accepted are those of the heights from the scheduler's position up to
  -- its new one, each once and in ascending order, without the bypassed ones; so none is skipped or
  -- repeated (reported heights below u64::MAX).
  pub run-Covers :
      IsPlanned s
      → All (λ r. BelowTop r.latest) rounds
      → Covers s.plan s.next_height (map (λ b. b.header.height) result.1) result.0.next_height
  run-Covers p small = (run-InStep p small).covers

  -- A run that ends by itself has accepted every height up to the end height that is not bypassed.
  pub run_finished-any :
      (end h : ℕ)
      → IsPlanned s
      → All (λ r. BelowTop r.latest) rounds
      → s.config.end_height ≡ some end
      → end ≤ u64_max
      → result.2 ≡ finished
      → s.next_height ≤ h
      → h ≤ end
      → is_bypassed s.plan h ≡ false
      → any (λ k. h == k) (map (λ b. b.header.height) result.1) ≡ true
  unfolding run
  run_finished-any end h p small bounded top done lo hi clear =
      let st = run-InStep p small in
      let positive : 0 < s.config.batch_size = positive_of done in
      let gap =
        is_complete-Gap result.0 end st.planned (ap (λ c. c.end_height) st.same_config ∙ bounded)
          (rw st.same_config positive) top (complete_of positive done) in
      elim (dec_lt h result.0.next_height) [
        | yes before ↦
            Covers-any s.plan s.next_height _ result.0.next_height h st.covers lo before clear
        | no after ↦ absurd (ground (arith, gap h, st.same))
      ]
