-- ===== src/Node/Ingest/Accepted.antt =====
-- The sink of bins/superquery-node/src/ingest.rs: the journal after the blocks it has accepted.
use superquery_node.Common.{
  ◌==◌, Bool-cases, any, All, All-append, All-weaken, lookup, Result, err, ok, Result-cases, ℕ, ◌≡◌,
  refl, ap, ◌∙◌, inl, inr, true, Option, none, some, List, [], ◌∷◌, ◌++◌, map, arith,
}
use superquery_node.Core.Error
use superquery_node.Store.Ingestion.Progress.{commit_all, commit_all-append, load-append}
use superquery_node.Core.Fetch.Scheduler.Run
use superquery_node.Core.Fetch.Scheduler.Progress
use superquery_node.Node.Ingest.Run.{accept}
use superquery_node.ChainApi.Block.{Header, GenericBlock}
use superquery_node.Store.Ingestion.{
  Driver, Journal, commit, commit_steps, encode, load, JournalRow,
}
use superquery_node.Store.Error.{StoreError}
use superquery_node.Core.Error.{CoreError}
use superquery_node.Core.Fetch.Scheduler.Run.{Round, finished}
use superquery_node.Store.Ingestion.Journal.{commit-cases, IsChain, entry_of}
use superquery_node.Core.Fetch.Scheduler.{FetchScheduler}
use superquery_node.Store.Ingestion.Lookup.{lookup-append, load-lookup}
use superquery_node.Core.Fetch.Scheduler.Kept.{run-Kept}

abbrev pub refusal : Result StoreError (Unit {0}) → Option CoreError
refusal (ok u) = none
refusal (err e) = some (Error.store e)

-- The block's header is the row of its height.
abbrev pub IsStored : {B : Type 0} → Journal → GenericBlock B → Type 0
IsStored j b = lookup b.header.height j ≡ some (encode b.header)

pub any-row :
    {B : Type 0} (h : ℕ) (j : Journal) (log : List (GenericBlock B))
    → All (IsStored j) log
    → any (λ k. h == k) (map (λ b. b.header.height) log) ≡ true
    → (row : JournalRow) × (lookup h j ≡ some row)
any-row h j [] stored e = ground (arith, e)
any-row h j (b ∷ log) stored e = elim (Bool-cases (h == b.header.height)) [
  | inl here ↦
      let same : h ≡ b.header.height = ground (arith, here) in
      (encode b.header, ap (λ k. lookup k j) same ∙ stored.0)
  | inr other ↦ any-row h j log stored.1 (ground (arith, e, other))
]

commit_all-snoc :
    {B : Type 0} (driver : Header → Driver) (log : List (GenericBlock B)) (b : GenericBlock B)
    (journal : Journal)
    → commit_all (map (λ c. (driver c.header, c.header)) (log ++ b ∷ [])) journal
      ≡ (commit
          (driver b.header)
          b.header
          (commit_all (map (λ c. (driver c.header, c.header)) log) journal)).1
unfolding commit_all
commit_all-snoc driver [] b journal = refl
commit_all-snoc driver (c ∷ log) b journal =
    commit_all-snoc driver log b (commit (driver c.header) c.header journal).1

module _ {B : Type 0} (driver : Header → Driver) (journal : Journal) where
  -- The journal after the blocks of `log` are accepted.
  abbrev pub state : List (GenericBlock B) → Journal
  state log = commit_all (map (λ b. (driver b.header, b.header)) log) journal

  abbrev pub verdict : List (GenericBlock B) → GenericBlock B → Option CoreError
  verdict log b = refusal (commit (driver b.header) b.header (state log)).0

  state-snoc :
      (log : List (GenericBlock B)) (b : GenericBlock B)
      → state (log ++ b ∷ []) ≡ (commit (driver b.header) b.header (state log)).1
  state-snoc log b = commit_all-snoc driver log b journal

  pub accept-agrees :
      (log : List (GenericBlock B)) (b : GenericBlock B)
      → accept driver (state log) b
        ≡ (state (Progress.journal verdict log b).0, (Progress.journal verdict log b).1)
  unfolding accept commit
  accept-agrees log b = elim (Result-cases (commit_steps (driver b.header) b.header (state log))) [
    | inl (after, done) ↦ rw (done, accept, commit, state-snoc log b, commit, done) refl
    | inr (e, failed) ↦ rw (failed, accept, commit) refl
  ]

  abbrev pub Holds : List (GenericBlock B) → Type 0
  Holds log = IsChain (state log) × All (IsStored (state log)) log

  accepted-Holds :
      (log : List (GenericBlock B)) (b : GenericBlock B) (after : Journal)
      → IsChain after
      → load after ≡ some b.header
      → state (log ++ b ∷ []) ≡ after
      → ((c : GenericBlock B) → IsStored (state log) c → IsStored after c)
      → Holds log
      → Holds (log ++ b ∷ [])
  accepted-Holds log b after chain last e stays (old, stored) = rw e (
    chain,
    All-append (IsStored after) log (b ∷ [])
        (All-weaken (IsStored (state log)) (IsStored after) log stays stored)
        (load-lookup after b.header chain last, tt),
  )

  note-Holds :
      (log : List (GenericBlock B)) (b : GenericBlock B)
      → Holds log
      → Holds (Progress.journal verdict log b).0
  note-Holds log b h = elim (commit-cases (driver b.header) b.header (state log) h.0) [
    | inl (e, failed) ↦ rw failed h
    | inr (inl (there, last)) ↦ rw there (
        accepted-Holds log b (state log) h.0 last (state-snoc log b ∙ ap (λ r. r.1) there)
          (λ c s. s) h)
    | inr (inr (longer, next)) ↦
        let after = state log ++ entry_of b.header ∷ [] in
        rw longer (
          accepted-Holds log b after next (load-append (state log) b.header)
            (state-snoc log b ∙ ap (λ r. r.1) longer)
            (λ c s. lookup-append c.header.height (encode c.header) (state log) _ s) h)
  ]

  pub run-Holds :
      (rounds : List (Round B)) (s : FetchScheduler)
      → IsChain journal
      → Holds (Run.run (Progress.journal verdict) s [] rounds).1
  unfolding commit_all
  run-Holds rounds s chain =
      run-Kept (Progress.journal verdict) Holds note-Holds rounds s [] (chain, tt)

  -- The old journal stays in front.
  pub run-append :
      (rounds : List (Round B)) (s : FetchScheduler)
      → IsChain journal
      → (more : Journal) × (state (Run.run (Progress.journal verdict) s [] rounds).1
          ≡ journal ++ more)
  run-append rounds s chain =
      let log = (Run.run (Progress.journal verdict) s [] rounds).1 in
      commit_all-append (map (λ b. (driver b.header, b.header)) log) journal chain
