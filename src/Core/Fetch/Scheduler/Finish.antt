-- ===== src/Core/Fetch/Scheduler/Finish.antt =====
-- When the loop of scheduler.rs ends by itself.
use superquery_node.Common.{
  Bool-cases, u64_max, Result, ok, err, Result-cases, ℕ, suc, ◌≤◌, ◌<◌, min, ◌≡◌, refl, ◌≢◌, inl,
  inr, Bool, true, Option, none, some, List, [], ◌∷◌, arith,
}
use superquery_node.ChainApi.Block.{GenericBlock}
use superquery_node.Core.Error.{CoreError}
use superquery_node.Core.Fetch.Range.{next_batch}
use superquery_node.Core.Fetch.Scheduler.{FetchScheduler, is_complete, acknowledge, past_end}
use superquery_node.Core.Fetch.Scheduler.Run.{
  before_fetch, during_head, during_blocks, running, Sink, Outcome, run_round, settle, run_rounds,
  deliver_blocks, accept_block, accept_blocks, finished, and_then, Round, Cancel, fetch_next,
  failed, looping, stopped,
}
use superquery_node.Core.Fetch.Scheduler.Plan.{IsPlanned, Gap}
use superquery_node.Core.Fetch.Range.Batch.{next_batch-Planned, Planned}

abbrev EndsComplete : {S : Type 0} → FetchScheduler × S × Outcome → Type 0
EndsComplete r = r.2 ≡ finished → is_complete r.0 ≡ true

module _ {S B : Type 0} (accept : Sink S B) where
  and_then-EndsComplete :
      (r : FetchScheduler × S × Outcome) (rest : FetchScheduler → S → FetchScheduler × S × Outcome)
      → r.2 ≢ finished
      → ((s : FetchScheduler) (sink : S) → EndsComplete (rest s sink))
      → EndsComplete (and_then r rest)
  and_then-EndsComplete (s, sink, looping) rest ne more = more s sink
  and_then-EndsComplete (s, sink, stopped) rest ne more = λ e. cc
  and_then-EndsComplete (s, sink, finished) rest ne more = λ e. absurd (ne refl)
  and_then-EndsComplete (s, sink, failed x) rest ne more = λ e. cc

  and_then-ne-finished :
      (r : FetchScheduler × S × Outcome) (rest : FetchScheduler → S → FetchScheduler × S × Outcome)
      → r.2 ≢ finished
      → ((s : FetchScheduler) (sink : S) → (rest s sink).2 ≢ finished)
      → (and_then r rest).2 ≢ finished
  and_then-ne-finished (s, sink, looping) rest ne more = more s sink
  and_then-ne-finished (s, sink, stopped) rest ne more = λ e. cc
  and_then-ne-finished (s, sink, finished) rest ne more = λ e. absurd (ne refl)
  and_then-ne-finished (s, sink, failed x) rest ne more = λ e. cc

  settle-ne-finished :
      (s : FetchScheduler) (h : ℕ) (sink : S) (answer : Result CoreError (Unit {0}))
      → (settle accept s h sink answer).2 ≢ finished
  unfolding settle
  settle-ne-finished s h sink (err x) = λ e. cc
  settle-ne-finished s h sink (ok _) = elim (Result-cases (acknowledge s h)) [
    | inl (s', e) ↦ rw (e, settle) (λ q. cc)
    | inr (x, e) ↦ rw (e, settle) (λ q. cc)
  ]

  accept_block-ne-finished :
      (cancelled : ℕ → Bool) (s : FetchScheduler) (sink : S) (b : GenericBlock B)
      → (accept_block accept cancelled s sink b).2 ≢ finished
  unfolding accept_block
  accept_block-ne-finished cancelled s sink b = elim (Bool-cases (cancelled b.header.height)) [
    | inl stop ↦ rw stop (λ e. cc)
    | inr go ↦ rw go (settle-ne-finished s b.header.height (accept sink b).0 (accept sink b).1)
  ]

  accept_blocks-ne-finished :
      (cancelled : ℕ → Bool) (blocks : List (GenericBlock B)) (s : FetchScheduler) (sink : S)
      → (accept_blocks accept cancelled s sink blocks).2 ≢ finished
  unfolding accept_blocks
  accept_blocks-ne-finished cancelled [] s sink = λ e. cc
  accept_blocks-ne-finished cancelled (b ∷ blocks) s sink =
      and_then-ne-finished (accept_block accept cancelled s sink b)
        (λ s' sink'. accept_blocks accept cancelled s' sink' blocks)
        (accept_block-ne-finished cancelled s sink b)
        (λ s' sink'. accept_blocks-ne-finished cancelled blocks s' sink')

  deliver_blocks-ne-finished :
      (round : Round B) (s : FetchScheduler) (sink : S)
      (fetched : Result CoreError (List (GenericBlock B)))
      → (deliver_blocks accept round s sink fetched).2 ≢ finished
  unfolding deliver_blocks
  deliver_blocks-ne-finished round s sink (err x) = λ e. cc
  deliver_blocks-ne-finished round s sink (ok []) = λ e. ground arith
  deliver_blocks-ne-finished round s sink (ok (b ∷ blocks)) =
      accept_blocks-ne-finished round.cancelled_at (b ∷ blocks) s sink

  run_round-ne-finished :
      (round : Round B) (s : FetchScheduler) (sink : S) (c : Cancel)
      → round.cancel ≡ c
      → (run_round accept round s sink).2 ≢ finished
  unfolding run_round
  run_round-ne-finished round s sink running e =
      rw (e, run_round)
        (deliver_blocks-ne-finished round (fetch_next s round).0 sink (fetch_next s round).1)
  run_round-ne-finished round s sink before_fetch e = rw (e, run_round) (λ q. cc)
  run_round-ne-finished round s sink during_head e = rw (e, run_round) (λ q. cc)
  run_round-ne-finished round s sink during_blocks e = rw (e, run_round) (λ q. cc)

  pub run_rounds-EndsComplete :
      (rounds : List (Round B)) (s : FetchScheduler) (sink : S)
      → EndsComplete (run_rounds accept s sink rounds)
  unfolding run_rounds
  run_rounds-EndsComplete [] s sink = λ e. ground arith
  run_rounds-EndsComplete (round ∷ rounds) s sink = elim (Bool-cases (is_complete s)) [
    | inl done ↦ rw (done, run_rounds) (λ e. done)
    | inr more ↦
        rw (more, run_rounds)
          (and_then-EndsComplete (run_round accept round s sink)
            (λ s' sink'. run_rounds accept s' sink' rounds)
            (run_round-ne-finished round s sink round.cancel refl)
            (λ s' sink'. run_rounds-EndsComplete rounds s' sink'))
  ]

past_end-none :
    (s : FetchScheduler) (end : ℕ) (limit : Option ℕ)
    → limit ≡ some end
    → past_end s limit ≡ true
    → next_batch s.plan s.next_height end s.config.batch_size (some end) ≡ none
unfolding past_end
past_end-none s end none e h = cc
past_end-none s end (some x) e h = ground arith

-- A planned scheduler is complete only if every height left up to its end height is bypassed.
pub is_complete-Gap :
    (s : FetchScheduler) (end : ℕ)
    → IsPlanned s
    → s.config.end_height ≡ some end
    → 0 < s.config.batch_size
    → end ≤ u64_max
    → is_complete s ≡ true
    → Gap s.plan s.next_height (suc end)
unfolding is_complete
is_complete-Gap s end p bounded positive top done = λ h lo hi.
    let planned =
      next_batch-Planned s.plan s.next_height end s.config.batch_size (some end) positive
        (omega arith) in
    let none_left : next_batch s.plan s.next_height end s.config.batch_size (some end) ≡ none =
      past_end-none s end s.config.end_height bounded (ground (arith, p.bounded)) in
    let covered : Planned s.plan s.next_height (min end end) s.config.batch_size none =
      rw none_left at planned in
    covered h lo (omega arith)
