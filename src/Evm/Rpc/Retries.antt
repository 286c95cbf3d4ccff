-- ===== src/Evm/Rpc/Retries.antt =====
-- How the retries of crates/chains/evm/src/rpc.rs end.
use superquery_node.Common.{
  ltb, ◌==◌, if◌then◌else◌, lt→ltb, ==_iff, Bool-cases, All, Result, err, ok, map_err, Result-cases,
  >>=-eq-ok, ℕ, zero, suc, ◌+◌, ◌%◌, ◌≤◌, ◌<◌, ◌≡◌, refl, sym, ap, ◌∙◌, subst, ◌⊎◌, inl, inr, Bool,
  true, false, Option, List, [], ◌∷◌, map, arith,
}
use superquery_node.ChainApi.Error.{ChainError, is_retryable}
use superquery_node.Evm.Hex.{Bytes}
use superquery_node.Evm.Rpc.{
  RpcClient, Reply, request, request_loop, attempt_once, delay, quantity, classify,
}

abbrev pub up_from : ℕ → ℕ → List ℕ
up_from start zero = []
up_from start (suc n) = start ∷ up_from (suc start) n

module _ {Json : Type 0} (as_str : Json → Option Bytes) (client : RpcClient) (asks_chain_id : Bool)
    (endpoint : ℕ → ℕ → Reply as_str) where
  -- What the attempt of this index comes to, at the endpoint whose turn it is.
  abbrev pub once : ℕ → Result ChainError Json
  once i = attempt_once as_str client asks_chain_id (endpoint (i % client.providers) i)

  abbrev pub Retried : ℕ → Type 0
  Retried i = (e : ChainError) × (once i ≡ err e) × (is_retryable e ≡ true)

  -- An attempt that is not repeated: a value, an error that no retry mends, or the last attempt.
  abbrev pub Settled : ℕ → Type 0
  Settled i =
      ((value : Json) × (once i ≡ ok value))
      ⊎ ((e : ChainError) × (once i ≡ err e)
          × ((is_retryable e ≡ false) ⊎ (suc i ≡ client.attempts)))

  loop-Settled :
      (left start : ℕ)
      → suc left + start ≡ client.attempts
      → (n i : ℕ) × (n ≤ left)
        × (i ≡ start + n)
        × All Retried (up_from start n)
        × Settled i
        × (request_loop as_str client asks_chain_id endpoint (suc left) start
            ≡ (once i, map delay (up_from start n)))
  unfolding request_loop
  loop-Settled zero start whole = elim (Result-cases (once start)) [
    | inl (value, e) ↦
        (0, start, omega arith, omega arith, tt, inl (value, e), rw (request_loop, e) refl)
    | inr (error, e) ↦ (
      0,
      start,
      omega arith,
      omega arith,
      tt,
      inr (error, e, inr (omega (arith, whole))),
      ground (arith, e, whole),
    )
  ]
  loop-Settled (suc left) start whole = elim (Result-cases (once start)) [
    | inl (value, e) ↦
        (0, start, omega arith, omega arith, tt, inl (value, e), rw (request_loop, e) refl)
    | inr (error, e) ↦ elim (Bool-cases (is_retryable error)) [
      | inr lasting ↦ (
        0,
        start,
        omega arith,
        omega arith,
        tt,
        inr (error, e, inl lasting),
        rw (request_loop, e, lasting) refl,
      )
      | inl again ↦
          let (n, i, bound, at, retried, settled, rest) =
            loop-Settled left (suc start) (omega (arith, whole)) in
          let more : ltb (start + 1) client.attempts ≡ true = lt→ltb _ _ (omega (arith, whole)) in
          (
            suc n,
            i,
            omega (arith, bound),
            omega (arith, at),
            ((error, e, again), retried),
            settled,
            rw (request_loop, e, again, more) (ap (λ r. (r.0, delay start ∷ r.1)) rest),
          )
    ]
  ]

  -- A request that may make one makes at most as many attempts as it may, at one endpoint after the
  -- other. Every attempt before the one that gives the result failed with a retryable error, each
  -- followed by its delay; and the result is a value, an error that no retry mends, or that of the
  -- last attempt.
  pub request-Settled :
      0 < client.attempts
      → (n : ℕ) × (n < client.attempts)
        × All Retried (up_from 0 n)
        × Settled n
        × (request as_str client asks_chain_id endpoint ≡ (once n, map delay (up_from 0 n)))
  unfolding request
  request-Settled positive = started client.attempts refl positive
    where
      started :
          (attempts : ℕ)
          → attempts ≡ client.attempts
          → 0 < attempts
          → (n : ℕ) × (n < client.attempts)
            × All Retried (up_from 0 n)
            × Settled n
            × (request_loop as_str client asks_chain_id endpoint attempts 0
                ≡ (once n, map delay (up_from 0 n)))
      started zero whole more = ground arith
      started (suc left) whole more =
          let (n, i, bound, at, retried, settled, e) = loop-Settled left 0 (omega (arith, whole)) in
          let here : i ≡ n = omega (arith, at) in
          (
            n,
            omega (arith, bound, whole),
            retried,
            subst Settled here settled,
            e ∙ ap (λ k. (once k, map delay (up_from 0 n))) here,
          )

  -- What the endpoint has given as the answer: its chain id if that is what is asked for, else its
  -- answer to the call; and the id it has shown is the client's.
  abbrev pub IsAnswer : Reply as_str → Json → Type 0
  IsAnswer reply value =
      (id : Json) × (reply.timed_out ≡ false)
      × (reply.id ≡ ok id)
      × (quantity as_str id ≡ ok client.chain_id)
      × ((if asks_chain_id then reply.id else reply.value) ≡ ok value)

  attempt_once-IsAnswer :
      (reply : Reply as_str) (value : Json)
      → attempt_once as_str client asks_chain_id reply ≡ ok value
      → IsAnswer reply value
  unfolding attempt_once
  attempt_once-IsAnswer reply value e = elim (Bool-cases reply.timed_out) [
    | inl late ↦ ground (arith, e, late)
    | inr answered ↦
        let (id, shown, next) = >>=-eq-ok (map_err classify reply.id) _ (rw answered at e) in
        let (actual, read, last) = >>=-eq-ok (quantity as_str id) _ next in
        let given : reply.id ≡ ok id = ground (arith, shown) in
        elim (Bool-cases (actual == client.chain_id)) [
          | inl same ↦ (
            id,
            answered,
            given,
            read ∙ ap ok ((==_iff actual client.chain_id).0 same),
            ground (arith, rw same at last, given),
          )
          | inr other ↦ let refused = rw other at last in ground (arith, refused)
        ]
  ]

  -- A value of a request is the answer of an endpoint that has just shown the client's chain id.
  pub request-IsAnswer :
      (value : Json)
      → 0 < client.attempts
      → (request as_str client asks_chain_id endpoint).0 ≡ ok value
      → (n : ℕ) × IsAnswer (endpoint (n % client.providers) n) value
  request-IsAnswer value positive e =
      let (n, bound, retried, settled, result) = request-Settled positive in
      (
        n,
        attempt_once-IsAnswer (endpoint (n % client.providers) n) value
            (sym (ap (λ r. r.0) result) ∙ e),
      )
