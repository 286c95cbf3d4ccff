-- ===== src/Evm/Filter/Logs.antt =====
-- What the filters of crates/chains/evm/src/filter.rs accept, position by position.
use superquery_node.Common.{
  Bool-cases, Option-cases, get_elem?, any, head?, ℕ, zero, suc, ◌≡◌, refl, sym, subst, ◌↔◌, inl,
  inr, true, Option, none, some, List, [], ◌∷◌, arith,
}
use superquery_node.Evm.Hex.{Bytes, eq_hex, normal, eq_hex_iff}
use superquery_node.Evm.Filter.{
  one, any_topic, any_of, LogView, topic_matches, topics_match, TopicFilter, log_matches,
  pinned_topic0, EvmLogFilter,
}

-- A constraint against what the log has at its position: any value or none, one value, or one of a
-- list.
abbrev pub Holds : TopicFilter → Option Bytes → Type 0
Holds any_topic found = Unit
Holds (one expected) none = ⊥
Holds (one expected) (some topic) = normal expected ≡ normal topic
Holds (any_of options) none = ⊥
Holds (any_of options) (some topic) =
    (i : ℕ) × (option : Bytes) × (get_elem? options i ≡ some option)
    × (normal option ≡ normal topic)

any-eq_hex :
    (options : List Bytes) (topic : Bytes)
    → (any (λ o. eq_hex o topic) options ≡ true) ↔ Holds (any_of options) (some topic)
any-eq_hex [] topic = ((λ e. ground arith), (λ (i, option, e, same). ground arith))
any-eq_hex (first ∷ options) topic =
    ((λ e. forward (any-eq_hex options topic).0 e), (λ h. backward (any-eq_hex options topic).1 h))
  where
    forward :
        (any (λ o. eq_hex o topic) options ≡ true → Holds (any_of options) (some topic))
        → any (λ o. eq_hex o topic) (first ∷ options) ≡ true
        → Holds (any_of (first ∷ options)) (some topic)
    forward ih e = elim (Bool-cases (eq_hex first topic)) [
      | inl same ↦ (0, first, refl, (eq_hex_iff first topic).0 same)
      | inr other ↦
          let (i, option, there, same) = ih (ground (arith, e, other)) in
          (suc i, option, there, same)
    ]

    backward :
        (Holds (any_of options) (some topic) → any (λ o. eq_hex o topic) options ≡ true)
        → Holds (any_of (first ∷ options)) (some topic)
        → any (λ o. eq_hex o topic) (first ∷ options) ≡ true
    backward ih (zero, option, e, same) = ground (arith, eq_hex_iff first topic, e, same)
    backward ih (suc i, option, e, same) = ground (arith, ih (i, option, e, same))

topic_matches_iff :
    (constraint : TopicFilter) (topic : Bytes)
    → (topic_matches constraint topic ≡ true) ↔ Holds constraint (some topic)
unfolding topic_matches
topic_matches_iff any_topic topic = ((λ e. tt), (λ h. refl))
topic_matches_iff (one expected) topic = eq_hex_iff expected topic
topic_matches_iff (any_of options) topic = any-eq_hex options topic

-- The constraints from a position on, each against the log's topic there.
abbrev pub AllHold : List TopicFilter → ℕ → List Bytes → Type 0
AllHold [] position topics = Unit
AllHold (constraint ∷ constraints) position topics =
    Holds constraint (get_elem? topics position) × AllHold constraints (suc position) topics

topics_match_here :
    (constraint : TopicFilter) (constraints : List TopicFilter) (position : ℕ) (topics : List Bytes)
    → (topics_match (constraint ∷ constraints) position topics ≡ true) ↔ (
        Holds constraint (get_elem? topics position)
        × (topics_match constraints (suc position) topics ≡ true))
unfolding topics_match
topics_match_here constraint constraints position topics =
    elim (Option-cases (get_elem? topics position)) [
      | inr (topic, there) ↦
          let (sound, complete) = topic_matches_iff constraint topic in
          (
            (λ e. (
              subst (Holds constraint) (sym there) (sound (ground (arith, e, there))),
              ground (arith, e, there),
            )),
            (λ (here, rest).
                ground (arith, complete (subst (Holds constraint) there here), rest, there)),
          )
      | inl out ↦ missing constraint out
    ]
  where
    missing :
        (c : TopicFilter)
        → get_elem? topics position ≡ none
        → (topics_match (c ∷ constraints) position topics ≡ true) ↔ (
            Holds c (get_elem? topics position)
            × (topics_match constraints (suc position) topics ≡ true))
    missing any_topic out = ((λ e. (tt, ground (arith, e, out))), (λ h. ground (arith, h.1, out)))
    missing (one t) out = (
      (λ e. ground (arith, e, out)),
      (λ h. let absurd : ⊥ = subst (Holds (one t)) out h.0 in elim absurd [ ]),
    )
    missing (any_of ts) out = (
      (λ e. ground (arith, e, out)),
      (λ h. let absurd : ⊥ = subst (Holds (any_of ts)) out h.0 in elim absurd [ ]),
    )

pub topics_match_iff :
    (constraints : List TopicFilter) (position : ℕ) (topics : List Bytes)
    → (topics_match constraints position topics ≡ true) ↔ AllHold constraints position topics
unfolding topics_match
topics_match_iff [] position topics = ((λ e. tt), (λ h. refl))
topics_match_iff (first ∷ constraints) position topics = (
  (λ e.
      let (here, rest) = (topics_match_here first constraints position topics).0 e in
      (here, (topics_match_iff constraints (suc position) topics).0 rest)),
  (λ h.
      (topics_match_here first constraints position topics).1
        (h.0, (topics_match_iff constraints (suc position) topics).1 h.1)),
)

-- The address a filter names, if any, against the log's.
abbrev pub SameAddress : Option Bytes → Bytes → Type 0
SameAddress none actual = Unit
SameAddress (some expected) actual = normal expected ≡ normal actual

-- A log matches exactly if its address is the one named, as hex, and every constraint holds of the
-- topic at its own position.
pub log_matches_iff :
    (filter : EvmLogFilter) (log : LogView)
    → (log_matches filter log ≡ true)
      ↔ (SameAddress filter.address log.address × AllHold filter.topics 0 log.topics)
unfolding log_matches
log_matches_iff filter log =
    let (sound, complete) = topics_match_iff filter.topics 0 log.topics in
    elim (Option-cases filter.address) [
      | inl unnamed ↦ rw unnamed ((λ e. (tt, sound e)), (λ h. complete h.1))
      | inr (expected, named) ↦
          let (same, back) = eq_hex_iff expected log.address in
          rw named (
            (λ e. (same (ground (arith, e)), sound (ground (arith, e)))),
            (λ h. ground (arith, back h.0, complete h.1)),
          )
    ]

pinned_first :
    (filter : EvmLogFilter) (constraints : List TopicFilter) (topics : List Bytes) (pinned : Bytes)
    → pinned_topic0 (record filter { topics = constraints }) ≡ some pinned
    → AllHold constraints 0 topics
    → (topic : Bytes) × (head? topics ≡ some topic) × (normal pinned ≡ normal topic)
unfolding pinned_topic0
pinned_first filter [] topics pinned e h = ground (arith, e)
pinned_first filter (any_topic ∷ constraints) topics pinned e h = ground (arith, e)
pinned_first filter (any_of options ∷ constraints) topics pinned e h = ground (arith, e)
pinned_first filter (one t ∷ constraints) [] pinned e h = elim h.0 [ ]
pinned_first filter (one t ∷ constraints) (topic ∷ topics) pinned e h =
    (topic, refl, ground (arith, e, h.0))

-- The topic a filter pins is the first topic of every log that it matches, so asking the endpoint
-- for that topic alone loses no match.
pub pinned_topic0-log_matches :
    (filter : EvmLogFilter) (log : LogView) (pinned : Bytes)
    → pinned_topic0 filter ≡ some pinned
    → log_matches filter log ≡ true
    → (topic : Bytes) × (head? log.topics ≡ some topic) × (normal pinned ≡ normal topic)
pinned_topic0-log_matches filter log pinned e matched =
    pinned_first filter filter.topics log.topics pinned e ((log_matches_iff filter log).0 matched).1
