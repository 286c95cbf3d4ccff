-- ===== src/Evm/Rpc/Client.antt =====
-- The client of crates/chains/evm/src/rpc.rs, built from a configuration, and the request of
-- crates/chains/evm/src/adapter.rs, which builds it on first use. The crate url is a parameter.
use superquery_node.Common.{
  ◌==◌, if◌then◌else◌, length, is_empty, All, parse_u64, Result, err, ok, ensure, ◌>>=◌, ◌>>◌,
  ok_or, map_err, map_m, Result-cases, >>=-eq-ok, ok-injective, ok_or-eq-ok, ensure-eq-ok, Bytes,
  String, ℕ, suc, ◌%◌, ◌<◌, ◌≡◌, refl, ap, subst, inl, inr, Bool, false, not, ◌||◌, Option, none,
  some, List, [], ◌∷◌, arith,
}
use superquery_node.ChainApi.Error
use superquery_node.Config.Url.{Url}
use superquery_node.Config.Endpoint.{IsEndpoint, validate_endpoint, validate_endpoint-IsEndpoint}
use superquery_node.Evm.Adapter.Network.{EvmAdapterConfig}
use superquery_node.Evm.Rpc.{RpcClient, Reply, request, quantity}
use superquery_node.ChainApi.Error.{ChainError}
use superquery_node.Evm.Rpc.Retries.{request-IsAnswer}

nonempty : (raws : List String) → is_empty raws ≡ false → 0 < length raws
nonempty [] e = ground (arith, e)
nonempty (raw ∷ raws) e = omega arith

-- The client that is there, if one is.
abbrev pub held {ℓ} : {A : Type ℓ} → Option A → List A
held none = []
held (some a) = a ∷ []

abbrev is_usable : EvmAdapterConfig → Bool
is_usable config =
    not (is_empty config.endpoints || config.max_retries == 0 || config.timeout_secs == 0)

abbrev unusable : ChainError
unusable = Error.other "RPC requires endpoints, positive attempts and timeout"

abbrev invalid_chain_id : ChainError
invalid_chain_id = Error.other "invalid decimal chain id"

-- `bytes` are the UTF-8 bytes of a text.
module _ (bytes : String → Bytes) (parse : Bytes → Result Bytes Url) where
  unfoldable pub provider : String → Result ChainError Url
  unfolding validate_endpoint
  provider raw = map_err Error.other (validate_endpoint parse (bytes raw))

  unfoldable pub new : EvmAdapterConfig → Result ChainError RpcClient
  unfolding provider
  new config = do
    ensure (is_usable config) unusable
    providers ← map_m provider config.endpoints
    chain_id ← ok_or invalid_chain_id (parse_u64 config.chain_id)
    ok (record { providers = length providers; chain_id = chain_id; attempts = config.max_retries })

  -- `get_or_try_init`: the client that is there, or a new one; an error leaves none.
  unfoldable pub client_of : EvmAdapterConfig → Option RpcClient → Result ChainError RpcClient
  unfolding new
  client_of config (some client) = ok client
  client_of config none = new config

  map_m-length :
      (raws : List String) (urls : List Url)
      → map_m provider raws ≡ ok urls
      → length urls ≡ length raws
  map_m-length [] urls e = ground (arith, e)
  map_m-length (raw ∷ raws) urls e =
      let (url, first, rest) = >>=-eq-ok (provider raw) _ e in
      let (others, more, last) = >>=-eq-ok (map_m provider raws) _ rest in
      let same : (url ∷ others) ≡ urls = ground (arith, last) in
      rw (← same) (ap suc (map_m-length raws others more))

  -- Every endpoint is accepted, and the client has as many providers and attempts as configured,
  -- at least one of each, and the configured chain id.
  abbrev pub IsClientOf : EvmAdapterConfig → RpcClient → Type 0
  IsClientOf config client =
      All (λ raw. IsEndpoint parse (bytes raw)) config.endpoints
      × (client.providers ≡ length config.endpoints)
      × (0 < client.providers)
      × (client.attempts ≡ config.max_retries)
      × (0 < client.attempts)
      × (parse_u64 config.chain_id ≡ some client.chain_id)

  providers-IsEndpoint :
      (raws : List String) (urls : List Url)
      → map_m provider raws ≡ ok urls
      → All (λ raw. IsEndpoint parse (bytes raw)) raws
  unfolding provider
  providers-IsEndpoint [] urls e = tt
  providers-IsEndpoint (raw ∷ raws) urls e =
      let (url, first, rest) = >>=-eq-ok (provider raw) _ e in
      let (others, more, last) = >>=-eq-ok (map_m provider raws) _ rest in
      let accepted : validate_endpoint parse (bytes raw) ≡ ok url = ground (arith, first) in
      (
        (validate_endpoint-IsEndpoint parse (bytes raw) url accepted).0,
        providers-IsEndpoint raws others more,
      )

  new-IsClientOf :
      (config : EvmAdapterConfig) (client : RpcClient)
      → new config ≡ ok client
      → IsClientOf config client
  unfolding new
  new-IsClientOf config client e =
      let (u, checked, e1) = >>=-eq-ok (ensure (is_usable config) unusable) _ e in
      let (urls, given, e2) = >>=-eq-ok (map_m provider config.endpoints) _ e1 in
      let (id, read, last) = >>=-eq-ok (ok_or invalid_chain_id (parse_u64 config.chain_id)) _ e2 in
      let usable = ensure-eq-ok (is_usable config) unusable checked in
      let whole = map_m-length config.endpoints urls given in
      let some_there : 0 < length config.endpoints =
        nonempty config.endpoints (ground (arith, usable)) in
      subst (IsClientOf config) (ok-injective last) (
        providers-IsEndpoint config.endpoints urls given,
        whole,
        rw whole some_there,
        refl,
        ground (arith, usable),
        ok_or-eq-ok invalid_chain_id (parse_u64 config.chain_id) read,
      )

  client_of-IsClientOf :
      (config : EvmAdapterConfig) (cached : Option RpcClient) (client : RpcClient)
      → All (IsClientOf config) (held cached)
      → client_of config cached ≡ ok client
      → IsClientOf config client
  unfolding client_of
  client_of-IsClientOf config none client mine e = new-IsClientOf config client e
  client_of-IsClientOf config (some old) client mine e =
      subst (IsClientOf config) (ok-injective e) mine.0

  module _ {Json : Type 0} (as_str : Json → Option Bytes) where
    -- `EvmAdapter::request`: the answer, and the client that the adapter has afterwards.
    unfoldable pub adapter_request :
        EvmAdapterConfig
        → Option RpcClient
        → Bool
        → (ℕ → ℕ → Reply as_str)
        → Result ChainError Json × Option RpcClient
    unfolding client_of
    adapter_request config cached asks_chain_id endpoint = elim (client_of config cached) [
      | err e ↦ (err e, none)
      | ok client ↦ ((request as_str client asks_chain_id endpoint).0, some client)
    ]

    -- The value is the answer of one of the configured endpoints, which has just shown the
    -- configured chain id: to a request for the id that id, to any other call its own answer.
    abbrev pub IsAnswered : EvmAdapterConfig → Bool → (ℕ → ℕ → Reply as_str) → Json → Type 0
    IsAnswered config asks_chain_id endpoint value =
        (i n own : ℕ) × (id : Json) × (i < length config.endpoints)
        × ((endpoint i n).timed_out ≡ false)
        × ((endpoint i n).id ≡ ok id)
        × (quantity as_str id ≡ ok own)
        × (parse_u64 config.chain_id ≡ some own)
        × ((if asks_chain_id then (endpoint i n).id else (endpoint i n).value) ≡ ok value)

    request-IsAnswered :
        (config : EvmAdapterConfig) (client : RpcClient) (asks_chain_id : Bool)
        (endpoint : ℕ → ℕ → Reply as_str) (value : Json)
        → IsClientOf config client
        → (request as_str client asks_chain_id endpoint).0 ≡ ok value
        → IsAnswered config asks_chain_id endpoint value
    request-IsAnswered config client asks_chain_id endpoint value
          (accepted, whole, some_provider, same, some_attempt, own) e =
        let (n, (id, in_time, shown, right, answer)) =
          request-IsAnswer as_str client asks_chain_id endpoint value some_attempt e in
        (
          n % client.providers,
          n,
          client.chain_id,
          id,
          rw (← whole) (omega (arith, some_provider)),
          in_time,
          shown,
          right,
          own,
          answer,
        )

    -- A value of a request is the answer of one of the configured endpoints, each of which is a URL
    -- of http or https with a host and no fragment, and which has just shown the configured chain
    -- id; on the first request, as on any other that finds the client of the configuration.
    pub adapter_request-IsAnswered :
        (config : EvmAdapterConfig) (cached : Option RpcClient) (asks_chain_id : Bool)
        (endpoint : ℕ → ℕ → Reply as_str) (value : Json)
        → All (IsClientOf config) (held cached)
        → (adapter_request config cached asks_chain_id endpoint).0 ≡ ok value
        → IsAnswered config asks_chain_id endpoint value
          × All (λ raw. IsEndpoint parse (bytes raw)) config.endpoints
          × All (IsClientOf config) (held (adapter_request config cached asks_chain_id endpoint).1)
    unfolding adapter_request
    adapter_request-IsAnswered config cached asks_chain_id endpoint value mine e =
        elim (Result-cases (client_of config cached)) [
          | inr (x, failed) ↦ ground (arith, e, failed)
          | inl (client, there) ↦
              let own = client_of-IsClientOf config cached client mine there in
              let answered = rw (there, adapter_request) at e in
              rw (there, adapter_request)
                (
                  request-IsAnswered config client asks_chain_id endpoint value own answered,
                  own.0,
                  (own, tt),
                )
        ]
