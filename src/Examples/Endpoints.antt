-- ===== src/Examples/Endpoints.antt =====
-- Two endpoints, the first of which is down.
use superquery_node.Common.{
  ◌==◌, if◌then◌else◌, All, to_string, read_digits, parse_u64, Result, err, ok, ascii, ℕ, ◌<◌, ◌≡◌,
  refl, false, Option, none, some, [], ◌∷◌, map, arith,
}
use superquery_node.Evm.Rpc.Client
use superquery_node.ChainApi.Error.{is_retryable}
use superquery_node.Evm.Hex.{Bytes}
use superquery_node.Evm.Rpc.{
  RpcClient, Reply, request, delay, transport_failed, quantity, request_loop, attempt_once,
  quantity_digits, from_str_radix, read_hex, hex_digit, classify,
}
use superquery_node.Evm.Rpc.Retries.{up_from, Retried, Settled, once, request-Settled}
use superquery_node.Config.Url.{Url}
use superquery_node.Evm.Rpc.Client.{
  adapter_request, client_of, provider, IsAnswered, IsClientOf, held, adapter_request-IsAnswered,
}
use superquery_node.Evm.Adapter.Network.{EvmAdapterConfig}
use superquery_node.Config.Endpoint.{validate_endpoint, is_http, IsEndpoint}

abbrev text : Bytes → Option Bytes
text value = some value

abbrev one_hex : Bytes
one_hex = b'0' ∷ b'x' ∷ b'1' ∷ []

abbrev client : RpcClient
client = record { providers = 2; chain_id = 1; attempts = 3 }

abbrev endpoint : ℕ → ℕ → Reply text
endpoint provider attempt =
    if provider == 0
    then record { timed_out = false; id = err transport_failed; value = err transport_failed }
    else record { timed_out = false; id = ok one_hex; value = ok [] }

request-Settled_example :
    (n : ℕ) × (n < 3)
    × All (Retried text client false endpoint) (up_from 0 n)
    × Settled text client false endpoint n
    × (request text client false endpoint
        ≡ (once text client false endpoint n, map delay (up_from 0 n)))
request-Settled_example = request-Settled text client false endpoint (omega arith)

abbrev url : Url
url = record {
  scheme = ascii "http";
  username = [];
  password = none;
  host_str = some (ascii "h");
  port = none;
  path = [];
  query_pairs = [];
  fragment = none;
  origin = ascii "http://h";
}

abbrev parse : Bytes → Result Bytes Url
parse raw = ok url

abbrev config : EvmAdapterConfig
config = record {
  endpoints = "http://h" ∷ "http://h/2" ∷ [];
  chain_id = "1";
  timeout_secs = 30;
  max_retries = 3;
  finality_confirmations = 200;
}

adapter_request-IsAnswered_example :
    IsAnswered ascii parse text config false endpoint []
    × All (λ raw. IsEndpoint parse (ascii raw)) config.endpoints
    × All
        (IsClientOf ascii parse config)
        (held (adapter_request ascii parse text config none false endpoint).1)
unfolding adapter_request client_of Client.new provider validate_endpoint is_http parse_u64
    read_digits request request_loop attempt_once quantity quantity_digits from_str_radix read_hex
    hex_digit classify is_retryable delay to_string
adapter_request-IsAnswered_example =
    adapter_request-IsAnswered ascii parse text config none false endpoint [] tt refl
