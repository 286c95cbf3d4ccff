-- ===== src/Node/Ingest/Stored.antt =====
-- What a run of bins/superquery-node/src/ingest.rs leaves in the journal.
use superquery_node.Common.{
  u64_max, All, lookup, Result, err, ok, >>=-eq-ok, ok-injective, ℕ, suc, ◌≤◌, ◌<◌, ◌≡◌, refl, sym,
  ap, ◌∙◌, subst, Bool, Option, none, some, List, [], ◌∷◌, ◌++◌, append-nil, arith, dec_lt,
}
use superquery_node.Store.Ingestion.Progress.{commit_all}
use superquery_node.Core.Fetch.Scheduler
use superquery_node.Core.Fetch.Scheduler.Run
use superquery_node.Node.Ingest.Run.{accept, run, run_from, Prelude, prepare}
use superquery_node.ChainApi.Block.{Header}
use superquery_node.Store.Ingestion.{Driver, Journal, load, JournalRow, latest}
use superquery_node.Core.Fetch.Scheduler.Run.{Round, finished, Outcome}
use superquery_node.Store.Ingestion.Journal.{IsChain}
use superquery_node.Core.Fetch.Scheduler.{FetchScheduler, resume_from}
use superquery_node.Store.Ingestion.Lookup.{load-bounded, chain-loaded, lookup-append}
use superquery_node.Node.Ingest.{IngestConfig, resume, IngestError, ingest_scheduler, first_height}
use superquery_node.Core.Fetch.Scheduler.Plan.{
  IsPlanned, new-IsPlanned, resume_from-IsPlanned, BelowTop,
}
use superquery_node.Core.Fetch.Range.{no_bypass, is_bypassed}
use superquery_node.ChainApi.Error.{ChainError}
use superquery_node.Core.Fetch.Scheduler.Refine.{run-seen}
use superquery_node.Core.Fetch.Scheduler.Coverage.{run_finished-any}
use superquery_node.Node.Ingest.Accepted.{
  state, verdict, accept-agrees, run-Holds, any-row, run-append,
}

started :
    {B : Type 0} (driver : Header → Driver) (r : Result IngestError (Option FetchScheduler))
    (journal : Journal) (rounds : List (Round B))
    → (run_from driver r journal rounds).0 ≡ ok finished
    → (s : FetchScheduler) × (r ≡ ok (some s))
      × ((Run.run (accept driver) s journal rounds).2 ≡ finished)
      × ((run_from driver r journal rounds).1 ≡ (Run.run (accept driver) s journal rounds).1)
unfolding run_from
started driver (err e) journal rounds done = ground (arith, done)
started driver (ok none) journal rounds done = ground (arith, done)
started driver (ok (some s)) journal rounds done = (s, refl, ok-injective done, refl)

-- The first height that a run asks for.
abbrev position : ℕ → Option Header → ℕ
position start none = start
position start (some last) = suc last.height

-- What a scheduler has that a run starts with.
record Started (config : IngestConfig) (start : ℕ) (last : Option Header) (s : FetchScheduler)
    : Type 0 where
  planned : IsPlanned s
  ends : s.config.end_height ≡ config.end_height
  at : s.next_height ≡ position start last
  plain : s.plan ≡ no_bypass

resume-Started :
    (config : IngestConfig) (min_start_block : ℕ) (cancelled : Bool) (last : Option Header)
    (header_at : ℕ → Result ChainError Header) (s : FetchScheduler)
    → ((header : Header) → last ≡ some header → header.height < u64_max)
    → resume cancelled
        (first_height config min_start_block)
        last
        header_at
        (ingest_scheduler config min_start_block)
      ≡ ok (some s)
    → Started config (first_height config min_start_block) last s
unfolding resume ingest_scheduler resume_from Scheduler.new
resume-Started config min_start_block cancelled none header_at s small e =
    let same : ingest_scheduler config min_start_block ≡ s = ground (arith, e) in
    subst (Started config (first_height config min_start_block) none) same (record {
      planned = new-IsPlanned (ingest_scheduler config min_start_block).config no_bypass;
      ends = refl;
      at = refl;
      plain = refl;
    })
resume-Started config min_start_block cancelled (some last) header_at s small e =
    let low : first_height config min_start_block ≤ suc last.height =
      ground (arith, e, small last refl) in
    let same : resume_from (ingest_scheduler config min_start_block) last.height ≡ s =
      ground (arith, e) in
    subst (Started config (first_height config min_start_block) (some last)) same (record {
      planned =
          resume_from-IsPlanned (ingest_scheduler config min_start_block) last.height
            (small last refl);
      ends = refl;
      at = ground (arith, low, small last refl);
      plain = refl;
    })

-- The rows of a run that ends by itself, from the height at which it goes on.
run-lookup_new :
    {B : Type 0} (driver : Header → Driver) (config : IngestConfig) (min_start_block : ℕ)
    (prelude : Prelude) (cancelled : Bool) (header_at : ℕ → Result ChainError Header)
    (journal after : Journal) (rounds : List (Round B)) (end h : ℕ)
    → IsChain journal
    → All (λ r. BelowTop r.latest) rounds
    → config.end_height ≡ some end
    → end ≤ u64_max
    → run driver config min_start_block prelude cancelled header_at journal rounds
      ≡ (ok finished, after)
    → position (first_height config min_start_block) (load journal) ≤ h
    → h ≤ end
    → (row : JournalRow) × (lookup h after ≡ some row)
unfolding run commit_all is_bypassed
run-lookup_new driver config min_start_block prelude cancelled header_at journal after rounds end h
      chain small bounded top done lo hi =
    let (s, r, ended, same) = started driver _ journal rounds (ap (λ x. x.0) done) in
    let (u, ready, resumed) = >>=-eq-ok (prepare prelude) _ r in
    let st =
      resume-Started config min_start_block cancelled (load journal) header_at s
        (λ last e. omega (arith, load-bounded journal last chain e)) resumed in
    let sees =
      run-seen (accept driver) (state driver journal) (verdict driver journal)
        (accept-agrees driver journal) rounds s [] in
    let (chained, stored) = run-Holds driver journal rounds s chain in
    let kept = sym (ap (λ x. x.1) done) ∙ same ∙ ap (λ x. x.1) sees in
    rw kept (
      any-row h _ _ stored (
        run_finished-any (verdict driver journal) s rounds end h st.planned small
          (st.ends ∙ bounded) top (sym (ap (λ x. x.2) sees) ∙ ended) (rw st.at lo) hi
          (rw st.plain refl)))

run_from-grows :
    {B : Type 0} (driver : Header → Driver) (r : Result IngestError (Option FetchScheduler))
    (journal : Journal) (rounds : List (Round B))
    → IsChain journal
    → let after = (run_from driver r journal rounds).1 in
      IsChain after × ((more : Journal) × (after ≡ journal ++ more))
unfolding run_from commit_all
run_from-grows driver (err e) journal rounds chain = (chain, ([], sym (append-nil journal)))
run_from-grows driver (ok none) journal rounds chain = (chain, ([], sym (append-nil journal)))
run_from-grows driver (ok (some s)) journal rounds chain =
    let sees =
      run-seen (accept driver) (state driver journal) (verdict driver journal)
        (accept-agrees driver journal) rounds s [] in
    rw (run_from, sees)
      ((run-Holds driver journal rounds s chain).0, run-append driver journal rounds s chain)

-- A run, however it ends, only adds to the end of the journal, which stays one chain.
run-grows :
    {B : Type 0} (driver : Header → Driver) (config : IngestConfig) (min_start_block : ℕ)
    (prelude : Prelude) (cancelled : Bool) (header_at : ℕ → Result ChainError Header)
    (journal after : Journal) (rounds : List (Round B)) (result : Result IngestError Outcome)
    → IsChain journal
    → run driver config min_start_block prelude cancelled header_at journal rounds ≡ (result, after)
    → IsChain after × ((more : Journal) × (after ≡ journal ++ more))
unfolding run
run-grows driver config min_start_block prelude cancelled header_at journal after rounds result
      chain e =
    subst (λ j. IsChain j × ((more : Journal) × (j ≡ journal ++ more))) (ap (λ x. x.1) e)
      (run_from-grows driver _ journal rounds chain)

-- The first height that a journal has, or that a run from the start height gives it.
abbrev pub first_of : ℕ → Journal → ℕ
first_of start [] = start
first_of start (entry ∷ entries) = entry.0

-- A run that ends by itself, from a journal that is one chain of headers: the journal is one chain
-- again, with the old one at its front, and has a row for every height from the first of the old
-- one, or from the start height if that was empty, up to the end height of the configuration
-- (reported heights below u64::MAX).
pub run-lookup :
    {B : Type 0} (driver : Header → Driver) (config : IngestConfig) (min_start_block : ℕ)
    (prelude : Prelude) (cancelled : Bool) (header_at : ℕ → Result ChainError Header)
    (journal after : Journal) (rounds : List (Round B)) (end h : ℕ)
    → IsChain journal
    → All (λ r. BelowTop r.latest) rounds
    → config.end_height ≡ some end
    → end ≤ u64_max
    → run driver config min_start_block prelude cancelled header_at journal rounds
      ≡ (ok finished, after)
    → first_of (first_height config min_start_block) journal ≤ h
    → h ≤ end
    → IsChain after
      × ((more : Journal) × (after ≡ journal ++ more))
      × ((row : JournalRow) × (lookup h after ≡ some row))
unfolding load latest
run-lookup driver config min_start_block prelude cancelled header_at [] after rounds end h chain
      small bounded top done lo hi =
    let (chained, grown) =
      run-grows driver config min_start_block prelude cancelled header_at [] after rounds
        (ok finished) chain done in
    (
      chained,
      grown,
      run-lookup_new driver config min_start_block prelude cancelled header_at [] after rounds end h
          chain small bounded top done lo hi,
    )
run-lookup driver config min_start_block prelude cancelled header_at (entry ∷ entries) after rounds
      end h chain small bounded top done lo hi =
    let journal = entry ∷ entries in
    let (chained, (more, grown)) =
      run-grows driver config min_start_block prelude cancelled header_at journal after rounds
        (ok finished) chain done in
    let (last, loaded, rows) = chain-loaded entry entries chain in
    (
      chained,
      (more, grown),
      elim (dec_lt last.height h) [
        | yes beyond ↦
            run-lookup_new driver config min_start_block prelude cancelled header_at journal after
              rounds end h chain small bounded top done (rw loaded beyond) hi
        | no within ↦
            let (row, there) = rows h lo (omega (arith, within)) in
            (row, rw grown (lookup-append h row journal more there))
      ],
    )
