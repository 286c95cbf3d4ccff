-- ===== src/Core/Fetch/Scheduler/Kept.antt =====
-- The fetch loop of scheduler.rs with a sink of any state: what each call of the sink keeps.
use superquery_node.Common.{
  ◌==◌, Bool-cases, Result, err, ok, Result-cases, ℕ, ◌≡◌, refl, inl, inr, Bool, List, [], ◌∷◌,
}
use superquery_node.Core.Fetch.Scheduler.Run.{
  Sink, accept_block, run_round, deliver_blocks, run, accept_blocks, settle, run_rounds, Outcome,
  Round, Cancel, and_then, fetch_next, failed, running, looping, before_fetch, stopped, finished,
  during_head, during_blocks,
}
use superquery_node.ChainApi.Block.{GenericBlock}
use superquery_node.Core.Fetch.Scheduler.{FetchScheduler, acknowledge, is_complete}
use superquery_node.Core.Error.{CoreError}

module _ {S B : Type 0} (accept : Sink S B) (Kept : S → Type 0)
    (keeps : (sink : S) (b : GenericBlock B) → Kept sink → Kept (accept sink b).0) where
  settle-Kept :
      (s : FetchScheduler) (height : ℕ) (sink : S) (answer : Result CoreError (Unit {0}))
      → Kept sink
      → Kept (settle accept s height sink answer).1
  unfolding settle
  settle-Kept s height sink (err e) k = k
  settle-Kept s height sink (ok u) k = elim (Result-cases (acknowledge s height)) [
    | inl (s', e) ↦ rw (e, settle) k
    | inr (x, e) ↦ rw (e, settle) k
  ]

  accept_block-Kept :
      (cancelled : ℕ → Bool) (s : FetchScheduler) (sink : S) (b : GenericBlock B)
      → Kept sink
      → Kept (accept_block accept cancelled s sink b).1
  unfolding accept_block
  accept_block-Kept cancelled s sink b k = elim (Bool-cases (cancelled b.header.height)) [
    | inl stop ↦ rw stop k
    | inr go ↦
        let r = accept sink b in rw go (settle-Kept s b.header.height r.0 r.1 (keeps sink b k))
  ]

  and_then-Kept :
      (r : FetchScheduler × S × Outcome) (rest : FetchScheduler → S → FetchScheduler × S × Outcome)
      → ((s : FetchScheduler) (sink : S) → Kept sink → Kept (rest s sink).1)
      → Kept r.1
      → Kept (and_then r rest).1
  and_then-Kept (s, sink, looping) rest more k = more s sink k
  and_then-Kept (s, sink, stopped) rest more k = k
  and_then-Kept (s, sink, finished) rest more k = k
  and_then-Kept (s, sink, failed e) rest more k = k

  accept_blocks-Kept :
      (cancelled : ℕ → Bool) (s : FetchScheduler) (sink : S) (blocks : List (GenericBlock B))
      → Kept sink
      → Kept (accept_blocks accept cancelled s sink blocks).1
  unfolding accept_blocks
  accept_blocks-Kept cancelled s sink [] k = k
  accept_blocks-Kept cancelled s sink (b ∷ blocks) k =
      and_then-Kept (accept_block accept cancelled s sink b) _
        (λ s' sink' k'. accept_blocks-Kept cancelled s' sink' blocks k')
        (accept_block-Kept cancelled s sink b k)

  deliver_blocks-Kept :
      (round : Round B) (s : FetchScheduler) (sink : S)
      (fetched : Result CoreError (List (GenericBlock B)))
      → Kept sink
      → Kept (deliver_blocks accept round s sink fetched).1
  unfolding deliver_blocks
  deliver_blocks-Kept round s sink (err e) k = k
  deliver_blocks-Kept round s sink (ok []) k = k
  deliver_blocks-Kept round s sink (ok (b ∷ blocks)) k =
      accept_blocks-Kept round.cancelled_at s sink (b ∷ blocks) k

  run_round-Kept :
      (round : Round B) (s : FetchScheduler) (sink : S) (c : Cancel)
      → round.cancel ≡ c
      → Kept sink
      → Kept (run_round accept round s sink).1
  unfolding run_round
  run_round-Kept round s sink running e k =
      let f = fetch_next s round in rw (e, run_round) (deliver_blocks-Kept round f.0 sink f.1 k)
  run_round-Kept round s sink before_fetch e k = rw (e, run_round) k
  run_round-Kept round s sink during_head e k = rw (e, run_round) k
  run_round-Kept round s sink during_blocks e k = rw (e, run_round) k

  run_rounds-Kept :
      (rounds : List (Round B)) (s : FetchScheduler) (sink : S)
      → Kept sink
      → Kept (run_rounds accept s sink rounds).1
  unfolding run_rounds
  run_rounds-Kept [] s sink k = k
  run_rounds-Kept (round ∷ rounds) s sink k = elim (Bool-cases (is_complete s)) [
    | inl done ↦ rw (done, run_rounds) k
    | inr more ↦
        rw (more, run_rounds)
          (and_then-Kept (run_round accept round s sink) _
            (λ s' sink' k'. run_rounds-Kept rounds s' sink' k')
            (run_round-Kept round s sink round.cancel refl k))
  ]

  -- What holds of the sink at first and is kept by each block that it accepts or refuses holds of
  -- it after a run.
  pub run-Kept :
      (rounds : List (Round B)) (s : FetchScheduler) (sink : S)
      → Kept sink
      → Kept (run accept s sink rounds).1
  unfolding run
  run-Kept rounds s sink k = elim (Bool-cases (s.config.batch_size == 0)) [
    | inl empty ↦ rw empty k
    | inr positive ↦ rw positive (run_rounds-Kept rounds s sink k)
  ]
