-- ===== src/Core/Fetch/Scheduler/Refine.antt =====
-- The fetch loop of scheduler.rs with a sink of any state that is determined by the blocks it has
-- accepted.
use superquery_node.Common.{
  ◌==◌, Bool-cases, Result, err, ok, Result-cases, ℕ, ◌≡◌, refl, inl, inr, Bool, Option, List, [],
  ◌∷◌,
}
use superquery_node.Core.Fetch.Scheduler.Run.{
  Sink, accept_block, run_round, deliver_blocks, run, accept_blocks, settle, run_rounds, Outcome,
  Round, Cancel, and_then, fetch_next, failed, running, looping, before_fetch, stopped, finished,
  during_head, during_blocks,
}
use superquery_node.ChainApi.Block.{GenericBlock}
use superquery_node.Core.Fetch.Scheduler.{FetchScheduler, acknowledge, is_complete}
use superquery_node.Core.Error.{CoreError}
use superquery_node.Core.Fetch.Scheduler.Progress.{journal}

-- `state` of a history is what the sink is after it.
module _ {S B : Type 0} (accept : Sink S B) (state : List (GenericBlock B) → S)
    (verdict : List (GenericBlock B) → GenericBlock B → Option CoreError)
    (agrees : (log : List (GenericBlock B)) (b : GenericBlock B)
      → accept (state log) b ≡ (state (journal verdict log b).0, (journal verdict log b).1)) where
  abbrev History : Type 0
  History = FetchScheduler × List (GenericBlock B) × Outcome

  abbrev seen : History → FetchScheduler × S × Outcome
  seen r = (r.0, state r.1, r.2)

  settle-seen :
      (s : FetchScheduler) (height : ℕ) (log : List (GenericBlock B))
      (answer : Result CoreError (Unit {0}))
      → settle accept s height (state log) answer
        ≡ seen (settle (journal verdict) s height log answer)
  unfolding settle
  settle-seen s height log (err e) = refl
  settle-seen s height log (ok u) = elim (Result-cases (acknowledge s height)) [
    | inl (s', e) ↦ rw (e, settle) refl
    | inr (x, e) ↦ rw (e, settle) refl
  ]

  accept_block-seen :
      (cancelled : ℕ → Bool) (s : FetchScheduler) (log : List (GenericBlock B)) (b : GenericBlock B)
      → accept_block accept cancelled s (state log) b
        ≡ seen (accept_block (journal verdict) cancelled s log b)
  unfolding accept_block
  accept_block-seen cancelled s log b = elim (Bool-cases (cancelled b.header.height)) [
    | inl stop ↦ rw (stop, accept_block) refl
    | inr go ↦
        let r = journal verdict log b in
        rw (go, accept_block, agrees log b) (settle-seen s b.header.height r.0 r.1)
  ]

  and_then-seen :
      (r : History) (other : FetchScheduler × S × Outcome)
      (rest : FetchScheduler → S → FetchScheduler × S × Outcome)
      (log_rest : FetchScheduler → List (GenericBlock B) → History)
      → ((s : FetchScheduler) (log : List (GenericBlock B))
          → rest s (state log) ≡ seen (log_rest s log))
      → other ≡ seen r
      → and_then other rest ≡ seen (and_then r log_rest)
  and_then-seen (s, log, looping) other rest log_rest more e = rw e (more s log)
  and_then-seen (s, log, stopped) other rest log_rest more e = rw e refl
  and_then-seen (s, log, finished) other rest log_rest more e = rw e refl
  and_then-seen (s, log, failed x) other rest log_rest more e = rw e refl

  accept_blocks-seen :
      (cancelled : ℕ → Bool) (s : FetchScheduler) (log blocks : List (GenericBlock B))
      → accept_blocks accept cancelled s (state log) blocks
        ≡ seen (accept_blocks (journal verdict) cancelled s log blocks)
  unfolding accept_blocks
  accept_blocks-seen cancelled s log [] = refl
  accept_blocks-seen cancelled s log (b ∷ blocks) =
      and_then-seen (accept_block (journal verdict) cancelled s log b) _ _ _
        (λ s' log'. accept_blocks-seen cancelled s' log' blocks)
        (accept_block-seen cancelled s log b)

  deliver_blocks-seen :
      (round : Round B) (s : FetchScheduler) (log : List (GenericBlock B))
      (fetched : Result CoreError (List (GenericBlock B)))
      → deliver_blocks accept round s (state log) fetched
        ≡ seen (deliver_blocks (journal verdict) round s log fetched)
  unfolding deliver_blocks
  deliver_blocks-seen round s log (err e) = refl
  deliver_blocks-seen round s log (ok []) = refl
  deliver_blocks-seen round s log (ok (b ∷ blocks)) =
      accept_blocks-seen round.cancelled_at s log (b ∷ blocks)

  run_round-seen :
      (round : Round B) (s : FetchScheduler) (log : List (GenericBlock B)) (c : Cancel)
      → round.cancel ≡ c
      → run_round accept round s (state log) ≡ seen (run_round (journal verdict) round s log)
  unfolding run_round
  run_round-seen round s log running e =
      let f = fetch_next s round in rw (e, run_round) (deliver_blocks-seen round f.0 log f.1)
  run_round-seen round s log before_fetch e = rw (e, run_round) refl
  run_round-seen round s log during_head e = rw (e, run_round) refl
  run_round-seen round s log during_blocks e = rw (e, run_round) refl

  run_rounds-seen :
      (rounds : List (Round B)) (s : FetchScheduler) (log : List (GenericBlock B))
      → run_rounds accept s (state log) rounds ≡ seen (run_rounds (journal verdict) s log rounds)
  unfolding run_rounds
  run_rounds-seen [] s log = refl
  run_rounds-seen (round ∷ rounds) s log = elim (Bool-cases (is_complete s)) [
    | inl done ↦ rw (done, run_rounds) refl
    | inr more ↦
        rw (more, run_rounds)
          (and_then-seen (run_round (journal verdict) round s log) _ _ _
            (λ s' log'. run_rounds-seen rounds s' log')
            (run_round-seen round s log round.cancel refl))
  ]

  -- A run with the sink does what the run does that only records the accepted blocks, and leaves
  -- the sink as they determine it.
  pub run-seen :
      (rounds : List (Round B)) (s : FetchScheduler) (log : List (GenericBlock B))
      → run accept s (state log) rounds ≡ seen (run (journal verdict) s log rounds)
  unfolding run
  run-seen rounds s log = elim (Bool-cases (s.config.batch_size == 0)) [
    | inl empty ↦ rw (empty, run) refl
    | inr positive ↦ rw (positive, run) (run_rounds-seen rounds s log)
  ]
