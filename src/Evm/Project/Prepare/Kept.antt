-- ===== src/Evm/Project/Prepare/Kept.antt =====
-- The handlers that crates/chains/evm/src/project.rs prepares: one for each of the manifest's, with
-- the filter that the manifest asks for.
use superquery_node.Common.{
  Bool-cases, All, str_eq_iff, Result, err, ok, ensure, map_m, >>=-eq-ok, ok-injective,
  ensure-eq-ok, Bytes, String, str_eq, ◌≡◌, refl, sym, subst, ◌⊎◌, inl, inr, true, ◌||◌, Option,
  none, some, List, [], ◌∷◌,
}
use superquery_node.ChainApi.Error
use superquery_node.Evm.Project.Prepare.{
  address, DataSource, option_of, Parsers, ManifestHandler, prepare_one, prepare_handlers,
  input_filter, check_options, prepare_source, address_option,
}
use superquery_node.ChainApi.Error.{ChainError}
use superquery_node.Evm.Project.{PreparedHandler}
use superquery_node.Evm.Project.Prepare.Asked.{ArePrepared, HasContract, ArePreparedOf, IsPrepared}
use superquery_node.Evm.Project.Prepare.Filters.{address-IsParsed, input_filter-HasInput}

-- `address_option`, of what is found under the name.
abbrev raw_of : Option (Option Bytes) → Result ChainError (Option Bytes)
raw_of option = elim option [
  | none ↦ ok none
  | some none ↦ err (Error.decode "datasource address must be a string")
  | some (some text) ↦ ok (some text)
]

module _ (parsers : Parsers) where
  prepare_one-ArePreparedOf :
      (source : DataSource) (contract : Option Bytes) (handlers : List ManifestHandler)
      (own : List PreparedHandler)
      → map_m (prepare_one parsers source contract) handlers ≡ ok own
      → ArePreparedOf parsers source contract handlers own
  unfolding prepare_one
  prepare_one-ArePreparedOf source contract [] own e = sym (ok-injective e)
  prepare_one-ArePreparedOf source contract (h ∷ handlers) own e =
      let (p, a, e1) = >>=-eq-ok (prepare_one parsers source contract h) _ e in
      let (rest, b, last) = >>=-eq-ok (map_m (prepare_one parsers source contract) handlers) _ e1 in
      let (filter, c, made) = >>=-eq-ok (input_filter parsers contract h.kind h.filter) _ a in
      let here : IsPrepared parsers source contract h p =
        subst (IsPrepared parsers source contract h) (ok-injective made)
          (refl, refl, refl, input_filter-HasInput parsers contract h filter c) in
      (
        p,
        rest,
        sym (ok-injective last),
        here,
        prepare_one-ArePreparedOf source contract handlers rest b,
      )

  check_options-All :
      (options : List (String × Option Bytes))
      → check_options options ≡ ok tt
      → All (λ o. (o.0 ≡ "address") ⊎ (o.0 ≡ "abi")) options
  unfolding check_options
  check_options-All [] e = tt
  check_options-All ((key, value) ∷ options) e =
      let unsupported : ChainError = Error.decode "unsupported datasource option" in
      let known = str_eq key "address" || str_eq key "abi" in
      let (u, a, rest) = >>=-eq-ok (ensure known unsupported) _ e in
      (named key (ensure-eq-ok known unsupported a), check_options-All options rest)
    where
      named :
          (k : String)
          → (str_eq k "address" || str_eq k "abi") ≡ true
          → (k ≡ "address") ⊎ (k ≡ "abi")
      named k e = elim (Bool-cases (str_eq k "address")) [
        | inl first ↦ inl ((str_eq_iff k "address").0 first)
        | inr other ↦ inr ((str_eq_iff k "abi").0 (rw other at e))
      ]

  contract-HasContract :
      (option : Option (Option Bytes)) (raw contract : Option Bytes)
      → raw_of option ≡ ok raw
      → address parsers raw ≡ ok contract
      → HasContract parsers option contract
  contract-HasContract none raw contract e a =
      address-IsParsed parsers none contract (rw (sym (ok-injective e)) at a)
  contract-HasContract (some none) raw contract e a = cc
  contract-HasContract (some (some text)) raw contract e a =
      address-IsParsed parsers (some text) contract (rw (sym (ok-injective e)) at a)

  -- A manifest that is compiled gives each of its handlers, in order, one prepared handler with its
  -- name, which starts and ends with its data source. Its filter is the one the handler asks for: of
  -- a log, the contract's address, the event's selector and the listed hashes, at most four; of a
  -- transaction, the function's selector, the sender, and the recipient, which is the contract where
  -- there is one; of a block, the modulus, which is not 0.
  pub prepare_handlers-ArePrepared :
      (sources : List DataSource) (prepared : List PreparedHandler)
      → prepare_handlers parsers sources ≡ ok prepared
      → ArePrepared parsers sources prepared
  unfolding prepare_handlers prepare_source address_option
  prepare_handlers-ArePrepared [] prepared e = sym (ok-injective e)
  prepare_handlers-ArePrepared (source ∷ sources) prepared e =
      let (own, a, e1) = >>=-eq-ok (prepare_source parsers source) _ e in
      let (rest, b, last) = >>=-eq-ok (prepare_handlers parsers sources) _ e1 in
      let (u, c, a1) = >>=-eq-ok (check_options source.options) _ a in
      let (raw, d, a2) = >>=-eq-ok (address_option source.options) _ a1 in
      let (contract, f, made) = >>=-eq-ok (address parsers raw) _ a2 in
      (
        own,
        rest,
        contract,
        sym (ok-injective last),
        check_options-All source.options c,
        contract-HasContract (option_of "address" source.options) raw contract d f,
        prepare_one-ArePreparedOf source contract source.handlers own made,
        prepare_handlers-ArePrepared sources rest b,
      )
