-- ===== src/Store/Ingestion/Progress.antt =====
-- The journal of crates/store/src/ingestion.rs over many commits and restarts.
use superquery_node.Common.{
  ok, ◌≡◌, refl, sym, ap, ◌∙◌, inl, inr, some, List, [], ◌∷◌, ◌++◌, append-nil, append_assoc, arith,
}
use superquery_node.ChainApi.Block.{Header}
use superquery_node.Store.Ingestion.{Driver, load, commit, Journal, latest, decode_row, encode}
use superquery_node.Store.Ingestion.Journal.{IsChain, commit-cases, entry_of, Entry}

latest-append : (journal : Journal) (entry : Entry) → latest (journal ++ entry ∷ []) ≡ some entry
unfolding latest
latest-append [] entry = refl
latest-append (first ∷ journal) entry = rw (latest-append journal entry) refl

pub load-append :
    (journal : Journal) (header : Header) → load (journal ++ entry_of header ∷ []) ≡ some header
unfolding load decode_row encode
load-append journal header = rw (load, latest-append journal (entry_of header)) refl

-- A restart loads the header committed last, if the commit succeeded on one chain of headers.
pub load-commit :
    (driver : Driver) (header : Header) (journal after : Journal)
    → IsChain journal
    → commit driver header journal ≡ (ok tt, after)
    → load after ≡ some header
load-commit driver header journal after chain e = elim (commit-cases driver header journal chain) [
  | inl (error, failed) ↦ ground (arith, e, failed)
  | inr (inl (there, last)) ↦ ground (arith, e, there, last)
  | inr (inr (longer, next)) ↦ ground (arith, e, longer, load-append journal header)
]

-- The journal after a list of commits, each with what its driver answers.
unfoldable pub commit_all : List (Driver × Header) → Journal → Journal
unfolding commit
commit_all [] journal = journal
commit_all ((driver, header) ∷ steps) journal = commit_all steps (commit driver header journal).1

commit-IsChain :
    (driver : Driver) (header : Header) (journal : Journal)
    → IsChain journal
    → IsChain (commit driver header journal).1
commit-IsChain driver header journal chain = elim (commit-cases driver header journal chain) [
  | inl (error, failed) ↦ rw failed chain
  | inr (inl (there, last)) ↦ rw there chain
  | inr (inr (longer, next)) ↦ rw longer next
]

-- From a journal that is one chain, whatever headers are offered, in whatever order, and wherever
-- the database fails, the journal is one chain: heights without a gap, each naming the hash below
-- it as its parent.
pub commit_all-IsChain :
    (steps : List (Driver × Header)) (journal : Journal)
    → IsChain journal
    → IsChain (commit_all steps journal)
unfolding commit_all
commit_all-IsChain [] journal chain = chain
commit_all-IsChain ((driver, header) ∷ steps) journal chain =
    commit_all-IsChain steps (commit driver header journal).1
      (commit-IsChain driver header journal chain)

-- What is in a journal that is one chain stays: each list of commits only adds to its end.
pub commit_all-append :
    (steps : List (Driver × Header)) (journal : Journal)
    → IsChain journal
    → (more : Journal) × (commit_all steps journal ≡ journal ++ more)
unfolding commit_all
commit_all-append [] journal chain = ([], sym (append-nil journal))
commit_all-append ((driver, header) ∷ steps) journal chain =
    let (more, e) =
      commit_all-append steps (commit driver header journal).1
        (commit-IsChain driver header journal chain) in
    elim (commit-cases driver header journal chain) [
      | inl (error, failed) ↦ (more, e ∙ ap (λ r. r.1 ++ more) failed)
      | inr (inl (there, last)) ↦ (more, e ∙ ap (λ r. r.1 ++ more) there)
      | inr (inr (longer, next)) ↦ (
        entry_of header ∷ more,
        e ∙ ap (λ r. r.1 ++ more) longer ∙ append_assoc journal (entry_of header ∷ []) more,
      )
    ]
