-- ===== src/Store/Ingestion/Journal.antt =====
-- The journal of crates/store/src/ingestion.rs stays one chain of headers.
use superquery_node.Common.{
  Bool-cases, Option-cases, i64_max, insert, lookup, err, ok, Result-cases, str_eq, ℕ, suc, ◌≤◌,
  ◌<◌, ◌≡◌, refl, sym, ap, ◌∙◌, ◌⊎◌, inl, inr, true, false, none, some, [], ◌∷◌, ◌++◌, arith,
}
use superquery_node.Store.Ingestion.{
  decode_row, Journal, latest, JournalRow, insert_row, commit_steps, commit, append, encode, load,
  Driver,
}
use superquery_node.ChainApi.Block.{Header, is_child_of, header_eq, header_eq_iff, is_child_of-true}
use superquery_node.Store.Checkpoint.{sql_height}
use superquery_node.Store.Error.{StoreError}

abbrev pub Entry : Type 0
Entry = ℕ × JournalRow

-- A height that fits the column, and a hash.
abbrev pub IsNamed : Entry → Type 0
IsNamed entry = (entry.0 ≤ i64_max) × (str_eq entry.1.hash "" ≡ false)

-- Each row is one height above the row before it, and names its hash as the parent.
abbrev pub Links : Entry → Journal → Type 0
Links entry [] = Unit
Links entry (next ∷ entries) =
    (next.0 ≡ suc entry.0)
    × (next.1.parent_hash ≡ some entry.1.hash)
    × IsNamed next
    × Links next entries

abbrev pub IsChain : Journal → Type 0
IsChain [] = Unit
IsChain (entry ∷ entries) = IsNamed entry × Links entry entries

pub latest_rest :
    (entry next : Entry) (entries : Journal)
    → latest (entry ∷ next ∷ entries) ≡ latest (next ∷ entries)
unfolding latest
latest_rest entry next entries = ground (arith, Option-cases (latest entries))

pub latest_some :
    (entry : Entry) (entries : Journal)
    → Links entry entries
    → (last : Entry) × (latest (entry ∷ entries) ≡ some last) × (entry.0 ≤ last.0)
unfolding latest
latest_some entry [] links = (entry, refl, omega arith)
latest_some entry (next ∷ entries) links =
    let (last, e, bound) = latest_some next entries links.3 in
    (last, rw e refl, omega (arith, links.0, bound))

-- A child of the last row goes in at the end.
insert-latest :
    (entry last : Entry) (row : JournalRow) (entries : Journal)
    → Links entry entries
    → latest (entry ∷ entries) ≡ some last
    → (insert (suc last.0) row (entry ∷ entries) ≡ (entry ∷ entries) ++ (suc last.0, row) ∷ [])
      × (lookup (suc last.0) (entry ∷ entries) ≡ none)
unfolding insert lookup latest
insert-latest entry last row [] links e = ground arith
insert-latest (h, r) last row (next ∷ entries) links e =
    let entry : Entry = (h, r) in
    let found = sym (latest_rest entry next entries) ∙ e in
    let (top, again, bound) = latest_some next entries links.3 in
    let (goes, absent) = insert-latest next last row entries links.3 found in
    let below : entry.0 < last.0 = ground (arith, links.0, found, again, bound) in
    (ground (arith, goes, below), ground (arith, absent, below))

Links-append :
    (entry last next : Entry) (entries : Journal)
    → Links entry entries
    → latest (entry ∷ entries) ≡ some last
    → next.0 ≡ suc last.0
    → next.1.parent_hash ≡ some last.1.hash
    → IsNamed next
    → Links entry (entries ++ next ∷ [])
unfolding latest
Links-append entry last next [] links e up parent named = ground (arith, e, up, parent, named)
Links-append entry last next (second ∷ entries) links e up parent named =
    let found = sym (latest_rest entry second entries) ∙ e in
    (links.0, links.1, links.2, Links-append second last next entries links.3 found up parent named)

abbrev pub entry_of : Header → Entry
entry_of header = (header.height, encode header)

insert_row-ok :
    (driver : Driver) (header : Header) (journal after : Journal)
    → insert_row driver header journal ≡ ok after
    → after ≡ insert header.height (encode header) journal
unfolding insert_row
insert_row-ok driver header journal after e = ground arith

-- What an append leaves: the journal, of which the header is the last, or the journal and the
-- header.
Appended : Header → Journal → Journal → Type 0
Appended header journal after =
    ((after ≡ journal) × (load journal ≡ some header))
    ⊎ ((after ≡ journal ++ entry_of header ∷ []) × IsChain (journal ++ entry_of header ∷ []))

append-next :
    (driver : Driver) (header last : Header) (journal after : Journal)
    → load journal ≡ some last
    → append driver header journal ≡ ok after
    → ((after ≡ journal) × (last ≡ header))
      ⊎ ((is_child_of header last ≡ true) × (after ≡ insert header.height (encode header) journal))
unfolding append
append-next driver header last journal after found e = elim (Bool-cases (header_eq last header)) [
  | inl same ↦ inl (ground (arith, e, found, same), (header_eq_iff last header).0 same)
  | inr other ↦ elim (Bool-cases (is_child_of header last)) [
    | inl child ↦
        inr (
          child,
          insert_row-ok driver header journal after (ground (arith, e, found, other, child)),
        )
    | inr stray ↦ ground (arith, e, found, other, stray)
  ]
]

append-Appended :
    (driver : Driver) (header : Header) (journal after : Journal)
    → IsChain journal
    → IsNamed (entry_of header)
    → append driver header journal ≡ ok after
    → Appended header journal after
unfolding append Appended encode load decode_row insert
append-Appended driver header [] after chain named e =
    inr (insert_row-ok driver header [] after e, (named, tt))
append-Appended driver header (entry ∷ entries) after chain named e =
    let (last, found, bound) = latest_some entry entries chain.1 in
    elim (append-next driver header (decode_row last) (entry ∷ entries) after
      (rw (load, found) refl) e) [
        | inl (same, there) ↦ inl (same, rw (load, found) (ap some there))
        | inr (child, goes) ↦
            let (up, parent) = is_child_of-true header (decode_row last) child in
            (inr (
              goes
                  ∙ ap (λ h. insert h (encode header) (entry ∷ entries)) up
                  ∙ (insert-latest entry last (encode header) entries chain.1 found).0
                  ∙ ap (λ h. (entry ∷ entries) ++ (h, encode header) ∷ []) (sym up),
              (
                chain.0,
                Links-append entry last (entry_of header) entries chain.1 found up parent named,
              ),
            ))
      ]

commit_steps-ok :
    (driver : Driver) (header : Header) (journal after : Journal)
    → commit_steps driver header journal ≡ ok after
    → IsNamed (entry_of header) × (append driver header journal ≡ ok after)
unfolding commit_steps sql_height encode
commit_steps-ok driver header journal after e = ground arith

-- A commit to one chain of headers fails and leaves it, or finds the header at its end already, or
-- makes a longer chain of it that ends in the header.
pub commit-cases :
    (driver : Driver) (header : Header) (journal : Journal)
    → IsChain journal
    → ((e : StoreError) × (commit driver header journal ≡ (err e, journal)))
      ⊎ ((commit driver header journal ≡ (ok tt, journal)) × (load journal ≡ some header))
      ⊎ ((commit driver header journal ≡ (ok tt, journal ++ entry_of header ∷ []))
          × IsChain (journal ++ entry_of header ∷ []))
unfolding commit Appended
commit-cases driver header journal chain =
    elim (Result-cases (commit_steps driver header journal)) [
      | inr (e, failed) ↦ inl (e, rw (commit, failed) refl)
      | inl (after, done) ↦
          let (named, appended) = commit_steps-ok driver header journal after done in
          elim (append-Appended driver header journal after chain named appended) [
            | inl (same, there) ↦ inr (inl (rw (commit, done) (rw same refl), there))
            | inr (longer, next) ↦ inr (inr (rw (commit, done) (rw longer refl), next))
          ]
    ]
