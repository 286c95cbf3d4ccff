-- ===== src/Evm/Project/Prepare/Filters.antt =====
-- The filters that crates/chains/evm/src/project.rs makes are those that the manifest asks for.
use superquery_node.Common.{
  leb, ◌==◌, leb→le, Bool-cases, length, str_eq_iff, Result, ok, ensure, ◌>>=◌, ok_or, map_m,
  >>=-eq-ok, ok-injective, ok_or-eq-ok, ensure-eq-ok, Bytes, bytes_eq, bytes_eq_iff, String, str_eq,
  ℕ, ◌≤◌, ◌≡◌, refl, sym, ap, ◌∙◌, subst, inl, inr, Option, none, some, List, [], ◌∷◌, map, arith,
}
use superquery_node.ChainApi.Error
use superquery_node.Evm.Project.Prepare.{
  recipient, address, Parsers, transaction_of, HandlerFilter, block_of, ManifestHandler, log_topics,
  bad, block_filter, log_filter, transaction_filter, input_filter,
}
use superquery_node.Evm.Filter.{TopicFilter, one, EvmTransactionFilter}
use superquery_node.ChainApi.Error.{ChainError}
use superquery_node.Evm.Project.{InputFilter}
use superquery_node.Evm.Project.Prepare.Asked.{
  AreParsed, HasBlocks, HasInput, HasTopics, IsParsed, HasTransactions, IsRecipient,
}

module _ (parsers : Parsers) where
  abbrev exact_topic : Bytes → Result ChainError TopicFilter
  exact_topic t = ok_or bad (parsers.parse_hash t) >>= λ h. ok (one h)

  exact_topics :
      (texts : List Bytes) (found : List TopicFilter)
      → map_m exact_topic texts ≡ ok found
      → (hashes : List Bytes) × AreParsed parsers.parse_hash texts hashes × (found ≡ map one hashes)
  exact_topics [] found e = ([], refl, sym (ok-injective e))
  exact_topics (t ∷ texts) found e =
      let (h, a, e1) = >>=-eq-ok (exact_topic t) _ e in
      let (rest, b, last) = >>=-eq-ok (map_m exact_topic texts) _ e1 in
      let (hash, c, made) = >>=-eq-ok (ok_or bad (parsers.parse_hash t)) _ a in
      let (hashes, parsed, same) = exact_topics texts rest b in
      (
        hash ∷ hashes,
        (hash, hashes, refl, ok_or-eq-ok bad (parsers.parse_hash t) c, parsed),
        sym (ok-injective last)
            ∙ ap (λ x. x ∷ rest) (sym (ok-injective made))
            ∙ ap (λ xs. one hash ∷ xs) same,
      )

  log_topics-HasTopics :
      (filter : Option HandlerFilter) (topics : List TopicFilter)
      → log_topics parsers filter ≡ ok topics
      → HasTopics parsers filter topics
  unfolding log_topics
  log_topics-HasTopics none topics e = sym (ok-injective e)
  log_topics-HasTopics (some (log_filter event texts)) topics e =
      let (selector, a, e1) = >>=-eq-ok (ok_or bad (parsers.event_selector event)) _ e in
      let (rest, b, e2) = >>=-eq-ok (map_m exact_topic texts) _ e1 in
      let (hashes, parsed, same) = exact_topics texts rest b in
      let few = leb (length (one selector ∷ rest)) 4 in
      let (u, c, last) = >>=-eq-ok (ensure few bad) _ e2 in
      let bound = leb→le (length (one selector ∷ rest)) 4 (ensure-eq-ok few bad c) in
      (
        selector,
        hashes,
        ok_or-eq-ok bad (parsers.event_selector event) a,
        parsed,
        sym (ok-injective last) ∙ ap (λ xs. one selector ∷ xs) same,
        subst (λ ts. length ts ≤ 4) (ok-injective last) bound,
      )
  log_topics-HasTopics (some (transaction_filter s f t)) topics e = cc
  log_topics-HasTopics (some (block_filter m t)) topics e = cc

  pub address-IsParsed :
      (text parsed : Option Bytes)
      → address parsers text ≡ ok parsed
      → IsParsed parsers.parse_address text parsed
  unfolding address
  address-IsParsed none parsed e = sym (ok-injective e)
  address-IsParsed (some text) parsed e =
      let invalid : ChainError = Error.decode "invalid manifest address" in
      let (value, a, last) = >>=-eq-ok (ok_or invalid (parsers.parse_address text)) _ e in
      (value, sym (ok-injective last), ok_or-eq-ok invalid (parsers.parse_address text) a)

  recipient-IsRecipient :
      (contract own target : Option Bytes)
      → recipient parsers contract own ≡ ok target
      → IsRecipient contract own target
  unfolding recipient
  recipient-IsRecipient contract none target e = sym (ok-injective e)
  recipient-IsRecipient none (some own) target e = sym (ok-injective e)
  recipient-IsRecipient (some c) (some own) target e = elim (Bool-cases (bytes_eq c own)) [
    | inl same ↦ (sym ((bytes_eq_iff c own).0 same), sym (ok-injective (rw same at e)))
    | inr other ↦ ground (arith, e, other)
  ]

  transaction_of-HasTransactions :
      (contract : Option Bytes) (filter : Option HandlerFilter) (tx : EvmTransactionFilter)
      → transaction_of parsers contract filter ≡ ok tx
      → HasTransactions parsers contract filter tx
  unfolding transaction_of
  transaction_of-HasTransactions contract none tx e = sym (ok-injective e)
  transaction_of-HasTransactions contract (some (transaction_filter signature from to)) tx e =
      let (selector, a, e1) = >>=-eq-ok (ok_or bad (parsers.function_selector signature)) _ e in
      let (sender, b, e2) = >>=-eq-ok (address parsers from) _ e1 in
      let (own, c, e3) = >>=-eq-ok (address parsers to) _ e2 in
      let (target, d, last) = >>=-eq-ok (recipient parsers contract own) _ e3 in
      let made = ok-injective last in
      (
        selector,
        own,
        ok_or-eq-ok bad (parsers.function_selector signature) a,
        ap (λ t. t.function) (sym made),
        subst (IsParsed parsers.parse_address from) (ap (λ t. t.from) made)
            (address-IsParsed from sender b),
        address-IsParsed to own c,
        subst (IsRecipient contract own) (ap (λ t. t.to) made)
            (recipient-IsRecipient contract own target d),
      )
  transaction_of-HasTransactions contract (some (log_filter s t)) tx e = cc
  transaction_of-HasTransactions contract (some (block_filter m t)) tx e = cc

  block_of-HasBlocks :
      (filter : Option HandlerFilter) (modulo : Option ℕ)
      → block_of parsers filter ≡ ok modulo
      → HasBlocks parsers filter modulo
  unfolding block_of
  block_of-HasBlocks none modulo e = sym (ok-injective e)
  block_of-HasBlocks (some (block_filter none none)) modulo e =
      (sym (ok-injective e), (λ d. cc), refl)
  block_of-HasBlocks (some (block_filter (some n) none)) modulo e = elim (Bool-cases (n == 0)) [
    | inl zero_modulo ↦ ground (arith, e, zero_modulo)
    | inr positive ↦
        (sym (ok-injective (rw positive at e)), (λ d. ground (arith, positive, d)), refl)
  ]
  block_of-HasBlocks (some (block_filter none (some t))) modulo e = cc
  block_of-HasBlocks (some (block_filter (some n) (some t))) modulo e = cc
  block_of-HasBlocks (some (transaction_filter s f t)) modulo e = cc
  block_of-HasBlocks (some (log_filter s t)) modulo e = cc

  pub input_filter-HasInput :
      (contract : Option Bytes) (handler : ManifestHandler) (input : InputFilter)
      → input_filter parsers contract handler.kind handler.filter ≡ ok input
      → HasInput parsers contract handler input
  unfolding input_filter
  input_filter-HasInput contract handler input e =
      let kind_is = λ (name : String). (str_eq_iff handler.kind name).0 in
      elim (Bool-cases (str_eq handler.kind "evm/LogHandler")) [
        | inl log ↦
            let (topics, a, last) = >>=-eq-ok (log_topics parsers handler.filter) _ (rw log at e) in
            subst (HasInput parsers contract handler) (ok-injective last)
              (kind_is "evm/LogHandler" log, refl, log_topics-HasTopics handler.filter topics a)
        | inr other ↦ elim (Bool-cases (str_eq handler.kind "evm/TransactionHandler")) [
          | inl transaction ↦
              let (tx, a, last) =
                >>=-eq-ok (transaction_of parsers contract handler.filter) _
                  (rw (other, transaction) at e) in
              subst (HasInput parsers contract handler) (ok-injective last) (
                kind_is "evm/TransactionHandler" transaction,
                transaction_of-HasTransactions contract handler.filter tx a,
              )
          | inr third ↦ elim (Bool-cases (str_eq handler.kind "evm/BlockHandler")) [
            | inl block ↦
                let (modulo, a, last) =
                  >>=-eq-ok (block_of parsers handler.filter) _ (rw (other, third, block) at e) in
                subst (HasInput parsers contract handler) (ok-injective last)
                  (kind_is "evm/BlockHandler" block, block_of-HasBlocks handler.filter modulo a)
            | inr unknown ↦ ground (arith, e, other, third, unknown)
          ]
        ]
      ]
