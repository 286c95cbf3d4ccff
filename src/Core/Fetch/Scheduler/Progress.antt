-- ===== src/Core/Fetch/Scheduler/Progress.antt =====
-- What the fetch loop of scheduler.rs delivers: every height that is not bypassed, once and in
-- order.
use mathlib.Core.List.{map-append}
use superquery_node.Common.{
  Bool-cases, Option-cases, All, Result, ok, err, ensure, map_err, map_m, Result-cases, >>=-eq-ok,
  ℕ, suc, ◌≤◌, ◌≡◌, refl, ◌∙◌, subst, ◌⊎◌, inl, inr, Bool, false, Option, none, some, List, [], ◌∷◌,
  ◌++◌, map, arith,
}
use superquery_node.ChainApi.Block.{GenericBlock}
use superquery_node.Core.Error
use superquery_node.Core.Error.{CoreError}
use superquery_node.Core.Fetch.Range.{RangePlan, is_bypassed}
use superquery_node.Core.Fetch.Scheduler.{
  FetchScheduler, fetch_blocks, fetch_checked, is_complete, is_linked, next_heights,
  SchedulerConfig,
}
use superquery_node.Core.Fetch.Scheduler.Plan.{
  IsPlanned, Gap, Steps, acknowledge_front, Begins, BelowTop, Begins-cons, Prepared,
  next_heights-Prepared,
}
use superquery_node.Core.Fetch.Scheduler.Run.{
  Sink, accept_block, stopped, failed, looping, accept_blocks, Round, run_round, deliver_blocks,
  run_rounds, Cancel, fetch_next, Outcome, and_then, planned_state, running, finished, settle,
  before_fetch, during_head, during_blocks,
}
use superquery_node.ChainApi.Error.{ChainError}

-- `hs` are the heights from `n` up to `n'`, exclusively, without those that are bypassed.
abbrev pub Covers : RangePlan → ℕ → List ℕ → ℕ → Type 0
Covers plan n [] n' = n ≡ n'
Covers plan n (h ∷ hs) n' =
    (n ≤ h) × Gap plan n h × (is_bypassed plan h ≡ false) × Covers plan (suc h) hs n'

Covers-snoc :
    (plan : RangePlan) (n h n' : ℕ) (hs : List ℕ)
    → Covers plan n hs n'
    → n' ≤ h
    → Gap plan n' h
    → is_bypassed plan h ≡ false
    → Covers plan n (hs ++ h ∷ []) (suc h)
Covers-snoc plan n h n' [] c le gap clear =
    (rw c le, (λ x lo hi. gap x (omega arith) hi), clear, refl)
Covers-snoc plan n h n' (k ∷ hs) (a, b, d, c) le gap clear =
    (a, b, d, Covers-snoc plan (suc k) h n' hs c le gap clear)

module _ {B : Type 0} (fetch : ℕ → Result ChainError (GenericBlock B)) where
  fetch_checked-height :
      (h : ℕ) (b : GenericBlock B) → fetch_checked fetch h ≡ ok b → b.header.height ≡ h
  unfolding fetch_checked
  fetch_checked-height h b e =
      let (c, got, checked) = >>=-eq-ok (map_err Error.chain (fetch h)) _ e in ground arith

  fetched-heights :
      (hs : List ℕ) (blocks : List (GenericBlock B))
      → map_m (fetch_checked fetch) hs ≡ ok blocks
      → map (λ b. b.header.height) blocks ≡ hs
  fetched-heights [] blocks e = let same : [] ≡ blocks = ground arith in rw (← same)
  fetched-heights (h ∷ hs) blocks e =
      let (b, first, rest) = >>=-eq-ok (fetch_checked fetch h) _ e in
      let (bs, others, last) = >>=-eq-ok (map_m (fetch_checked fetch) hs) _ rest in
      let same : (b ∷ bs) ≡ blocks = ground arith in
      rw (← same, fetch_checked-height h b first, fetched-heights hs bs others)

  -- A successful fetch yields a block for each height that was asked for, in order.
  pub fetch_blocks-heights :
      (hs : List ℕ) (blocks : List (GenericBlock B))
      → fetch_blocks fetch hs ≡ ok blocks
      → map (λ b. b.header.height) blocks ≡ hs
  unfolding fetch_blocks
  fetch_blocks-heights hs blocks e =
      let (bs, all_fetched, rest) = >>=-eq-ok (map_m (fetch_checked fetch) hs) _ e in
      let (u, linked, last) = >>=-eq-ok (ensure (is_linked bs) _) _ rest in
      let same : bs ≡ blocks = ground arith in rw (← same) (fetched-heights hs bs all_fetched)

-- A sink that records what it accepts. `verdict` says of any history whether the next block is
-- refused, and with which error.
module _ {B : Type 0} (verdict : List (GenericBlock B) → GenericBlock B → Option CoreError) where
  abbrev pub note :
      Option CoreError
      → List (GenericBlock B)
      → GenericBlock B
      → List (GenericBlock B) × Result CoreError (Unit {0})
  note none log block = (log ++ block ∷ [], ok tt)
  note (some e) log block = (log, err e)

  abbrev pub journal : Sink (List (GenericBlock B)) B
  journal log block = note (verdict log block) log block

  abbrev pub log_heights : List (GenericBlock B) → List ℕ
  log_heights = map (λ b. b.header.height)

  -- The scheduler stands behind what the journal holds, and has planned what comes next.
  pub record InStep (config : SchedulerConfig) (plan : RangePlan) (start : ℕ) (s : FetchScheduler)
      (log : List (GenericBlock B)) : Type 0 where
    pub planned : IsPlanned s
    pub same : s.plan ≡ plan
    pub same_config : s.config ≡ config
    pub covers : Covers plan start (log_heights log) s.next_height

  module _ (config : SchedulerConfig) (plan : RangePlan) (start : ℕ) where
    -- The scheduler after the acknowledgement of `h`.
    abbrev acknowledged : FetchScheduler → ℕ → List ℕ → FetchScheduler
    acknowledged s h hs = record s { pending = hs; exhausted = false; next_height = suc h }

    acknowledged-InStep :
        (s : FetchScheduler) (log : List (GenericBlock B)) (b : GenericBlock B) (hs : List ℕ)
        → s.pending ≡ b.header.height ∷ hs
        → InStep config plan start s log
        → InStep config plan start (acknowledged s b.header.height hs) (log ++ b ∷ [])
    acknowledged-InStep s log b hs e st =
        let (le, gap, clear, small, rest) = subst (Steps s.plan s.next_height) e st.planned.steps in
        record {
          planned = record { steps = rest; bounded = refl };
          same = st.same;
          same_config = st.same_config;
          covers = rw (map-append (λ c. c.header.height) log (b ∷ [])) (
              Covers-snoc plan start b.header.height s.next_height (log_heights log) st.covers le
                (rw (← st.same) gap) (rw (← st.same) clear));
        }

    accept_block-InStep :
        (cancelled : ℕ → Bool) (s : FetchScheduler) (log : List (GenericBlock B))
        (b : GenericBlock B) (hs : List ℕ)
        → s.pending ≡ b.header.height ∷ hs
        → InStep config plan start s log
        → (accept_block journal cancelled s log b ≡ (s, log, stopped))
          ⊎ ((e : CoreError) × (accept_block journal cancelled s log b ≡ (s, log, failed e)))
          ⊎ (accept_block journal cancelled s log b
              ≡ (acknowledged s b.header.height hs, log ++ b ∷ [], looping))
    unfolding accept_block
    accept_block-InStep cancelled s log b hs e st = elim (Bool-cases (cancelled b.header.height)) [
      | inl stop ↦ inl (rw stop)
      | inr go ↦ elim (Option-cases (verdict log b)) [
        | inl agreed ↦ inr (
            inr (
              rw (go, agreed, acknowledge_front s b.header.height hs e st.planned, settle, agreed)))
        | inr (x, refused) ↦ inr (inl (x, rw (go, refused)))
      ]
    ]

    accept_blocks-InStep :
        (cancelled : ℕ → Bool) (blocks : List (GenericBlock B)) (s : FetchScheduler)
        (log : List (GenericBlock B))
        → Begins (log_heights blocks) s.pending
        → InStep config plan start s log
        → let r = accept_blocks journal cancelled s log blocks in InStep config plan start r.0 r.1
    unfolding accept_blocks
    accept_blocks-InStep cancelled [] s log begins st = st
    accept_blocks-InStep cancelled (b ∷ blocks) s log begins st =
        let (hs, e, more) = Begins-cons b.header.height (log_heights blocks) s.pending begins in
        elim (accept_block-InStep cancelled s log b hs e st) [
          | inl stop ↦ rw stop st
          | inr (inl (x, refused)) ↦ rw refused st
          | inr (inr accepted) ↦ rw accepted (
              accept_blocks-InStep cancelled blocks (acknowledged s b.header.height hs)
                (log ++ b ∷ []) more (acknowledged-InStep s log b hs e st))
        ]

    deliver_ok-InStep :
        (round : Round B) (s : FetchScheduler) (log blocks : List (GenericBlock B))
        → Begins (log_heights blocks) s.pending
        → InStep config plan start s log
        → let r = deliver_blocks journal round s log (ok blocks) in InStep config plan start r.0 r.1
    unfolding deliver_blocks
    deliver_ok-InStep round s log [] begins st = st
    deliver_ok-InStep round s log (b ∷ blocks) begins st =
        accept_blocks-InStep round.cancelled_at (b ∷ blocks) s log begins st

    deliver_blocks-InStep :
        (round : Round B) (s : FetchScheduler) (log : List (GenericBlock B)) (hs : List ℕ)
        → Begins hs s.pending
        → InStep config plan start s log
        → let r = deliver_blocks journal round s log (fetch_blocks round.fetch hs) in
          InStep config plan start r.0 r.1
    unfolding deliver_blocks
    deliver_blocks-InStep round s log hs begins st =
        elim (Result-cases (fetch_blocks round.fetch hs)) [
          | inl (blocks, e) ↦
              let same = fetch_blocks-heights round.fetch hs blocks e in
              rw e (deliver_ok-InStep round s log blocks (rw same begins) st)
          | inr (x, e) ↦ rw e st
        ]

    Prepared-InStep :
        (s s' : FetchScheduler) (log : List (GenericBlock B)) (hs : List ℕ)
        → Prepared s s' hs
        → InStep config plan start s log
        → InStep config plan start s' log
    Prepared-InStep s s' log hs p st = record {
      planned = p.planned;
      same = p.same_plan ∙ st.same;
      same_config = p.same_config ∙ st.same_config;
      covers = rw p.same_next st.covers;
    }

    fetched-InStep :
        (round : Round B) (s : FetchScheduler) (log : List (GenericBlock B))
        → BelowTop round.latest
        → InStep config plan start s log
        → let f = fetch_next s round in
          let r = deliver_blocks journal round f.0 log f.1 in
          InStep config plan start r.0 r.1 × InStep config plan start (planned_state s round) log
    unfolding fetch_next planned_state deliver_blocks
    fetched-InStep round s log small st =
        let prepared = next_heights-Prepared s 0 0 round.latest round.finalized st.planned small in
        elim (Result-cases (next_heights s 0 0 round.latest round.finalized)) [
          | inl ((s', hs), e) ↦
              let p : Prepared s s' hs = rw e at prepared in
              let st' = Prepared-InStep s s' log hs p st in
              rw (e, fetch_next, planned_state)
                (deliver_blocks-InStep round s' log hs p.begins st', st')
          | inr (x, e) ↦ rw (e, fetch_next, planned_state) (st, st)
        ]

    run_round-InStep :
        (round : Round B) (s : FetchScheduler) (log : List (GenericBlock B)) (c : Cancel)
        → round.cancel ≡ c
        → BelowTop round.latest
        → InStep config plan start s log
        → let r = run_round journal round s log in InStep config plan start r.0 r.1
    unfolding run_round
    run_round-InStep round s log running e small st =
        rw (e, run_round) ((fetched-InStep round s log small st).0)
    run_round-InStep round s log before_fetch e small st = rw (e, run_round) st
    run_round-InStep round s log during_head e small st = rw (e, run_round) st
    run_round-InStep round s log during_blocks e small st =
        rw (e, run_round) ((fetched-InStep round s log small st).1)

    and_then-InStep :
        (r : FetchScheduler × List (GenericBlock B) × Outcome)
        (rest : FetchScheduler
          → List (GenericBlock B)
          → FetchScheduler × List (GenericBlock B) × Outcome)
        → ((s : FetchScheduler) (log : List (GenericBlock B))
            → InStep config plan start s log
            → InStep config plan start (rest s log).0 (rest s log).1)
        → InStep config plan start r.0 r.1
        → InStep config plan start (and_then r rest).0 (and_then r rest).1
    and_then-InStep (s, log, looping) rest more st = more s log st
    and_then-InStep (s, log, stopped) rest more st = st
    and_then-InStep (s, log, finished) rest more st = st
    and_then-InStep (s, log, failed e) rest more st = st

    pub run_rounds-InStep :
        (rounds : List (Round B)) (s : FetchScheduler) (log : List (GenericBlock B))
        → All (λ r. BelowTop r.latest) rounds
        → InStep config plan start s log
        → let r = run_rounds journal s log rounds in InStep config plan start r.0 r.1
    unfolding run_rounds
    run_rounds-InStep [] s log small st = st
    run_rounds-InStep (round ∷ rounds) s log small st = elim (Bool-cases (is_complete s)) [
      | inl done ↦ rw (done, run_rounds) st
      | inr more ↦
          rw (more, run_rounds)
            (and_then-InStep (run_round journal round s log)
              (λ s' log'. run_rounds journal s' log' rounds)
              (λ s' log' st'. run_rounds-InStep rounds s' log' small.1 st')
              (run_round-InStep round s log round.cancel refl small.0 st))
    ]
