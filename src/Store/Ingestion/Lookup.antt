-- ===== src/Store/Ingestion/Lookup.antt =====
-- The rows of the journal of crates/store/src/ingestion.rs, by their heights.
use superquery_node.Common.{
  ◌==◌, Bool-cases, i64_max, lookup, ℕ, ◌≤◌, ◌<◌, ◌≡◌, refl, sym, ◌∙◌, inl, inr, some, [], ◌∷◌,
  ◌++◌, arith,
}
use superquery_node.Store.Ingestion.{JournalRow, latest, Journal, load, decode_row, encode}
use superquery_node.Store.Ingestion.Journal.{
  Entry, Links, IsNamed, IsChain, latest_rest, latest_some,
}
use superquery_node.ChainApi.Block.{Header}

latest-lookup :
    (entry last : Entry) (entries : Journal)
    → Links entry entries
    → latest (entry ∷ entries) ≡ some last
    → (lookup last.0 (entry ∷ entries) ≡ some last.1) × (entry.0 ≤ last.0)
unfolding latest lookup
latest-lookup entry last [] links e = ground arith
latest-lookup entry last (next ∷ entries) links e =
    let found = sym (latest_rest entry next entries) ∙ e in
    let (there, bound) = latest-lookup next last entries links.3 found in
    let below : entry.0 < last.0 = omega (arith, links.0, bound) in
    (ground (arith, there, below), omega (arith, below))

-- The header that a chain loads is in the journal under its height.
pub load-lookup :
    (journal : Journal) (header : Header)
    → IsChain journal
    → load journal ≡ some header
    → lookup header.height journal ≡ some (encode header)
unfolding load latest decode_row encode
load-lookup [] header chain e = ground (arith, e)
load-lookup (entry ∷ entries) header chain e =
    let (last, found, bound) = latest_some entry entries chain.1 in
    let (there, up) = latest-lookup entry last entries chain.1 found in
    let same : decode_row last ≡ header = ground (arith, e, found) in rw (← same) there

-- What is in a journal stays there when rows go in at its end.
pub lookup-append :
    (h : ℕ) (row : JournalRow) (journal more : Journal)
    → lookup h journal ≡ some row
    → lookup h (journal ++ more) ≡ some row
unfolding lookup
lookup-append h row [] more e = ground (arith, e)
lookup-append h row ((k, r) ∷ journal) more e = ground (arith, e, lookup-append h row journal more)

latest-IsNamed :
    (entry : Entry) (entries : Journal)
    → IsNamed entry
    → Links entry entries
    → (last : Entry) × (latest (entry ∷ entries) ≡ some last) × IsNamed last
unfolding latest
latest-IsNamed entry [] named links = (entry, refl, named)
latest-IsNamed entry (next ∷ entries) named links =
    let (last, found, own) = latest-IsNamed next entries links.2 links.3 in
    (last, latest_rest entry next entries ∙ found, own)

-- A chain's headers fit their column.
pub load-bounded :
    (journal : Journal) (header : Header)
    → IsChain journal
    → load journal ≡ some header
    → header.height ≤ i64_max
unfolding load
load-bounded [] header chain e = ground (arith, e)
load-bounded (entry ∷ entries) header chain e =
    let (last, found, named) = latest-IsNamed entry entries chain.0 chain.1 in
    ground (arith, e, found, named, decode_row)

-- A chain has a row for every height between its first and its last.
chain-lookup :
    (entry last : Entry) (entries : Journal) (h : ℕ)
    → Links entry entries
    → latest (entry ∷ entries) ≡ some last
    → entry.0 ≤ h
    → h ≤ last.0
    → (row : JournalRow) × (lookup h (entry ∷ entries) ≡ some row)
unfolding latest lookup
chain-lookup entry last [] h links e lo hi = (entry.1, ground (arith, e, lo, hi))
chain-lookup entry last (next ∷ entries) h links e lo hi = elim (Bool-cases (h == entry.0)) [
  | inl here ↦ (entry.1, ground (arith, here))
  | inr other ↦
      let found = sym (latest_rest entry next entries) ∙ e in
      let (row, there) =
        chain-lookup next last entries h links.3 found (ground (arith, links.0, lo, other)) hi in
      (row, ground (arith, there, lo, other))
]

-- What a chain that is not empty has as its last header, and its rows up to that.
pub chain-loaded :
    (entry : Entry) (entries : Journal)
    → IsChain (entry ∷ entries)
    → (last : Header) × (load (entry ∷ entries) ≡ some last)
      × ((h : ℕ)
          → entry.0 ≤ h
          → h ≤ last.height
          → (row : JournalRow) × (lookup h (entry ∷ entries) ≡ some row))
unfolding load decode_row
chain-loaded entry entries chain =
    let (last, found, bound) = latest_some entry entries chain.1 in
    (
      decode_row last,
      rw (load, found) refl,
      λ h lo hi. chain-lookup entry last entries h chain.1 found lo hi,
    )
