-- ===== src/Evm/Rpc.antt =====
-- crates/chains/evm/src/rpc.rs: a request with its retries over the endpoints. JSON values and what
-- the transport answers are arguments.
use superquery_node.Common.{
  ltb, leb, ◌==◌, if◌then◌else◌, u64_max, to_string, ℤ, pos, negsuc, Result, err, ok, ensure, ◌>>=◌,
  ◌>>◌, map_err, ℕ, zero, suc, ◌+◌, ◌-◌, ◌*◌, ◌%◌, ◌^◌, min, Bool, not, ◌&&◌, ◌||◌, Option, none,
  some, List, [], ◌∷◌,
}
use superquery_node.ChainApi.Error
use superquery_node.ChainApi.Error.{ChainError, is_retryable}
use superquery_node.Evm.Hex.{Bytes}
pub mod Client
pub mod Retries

-- How a call fails: an error response with its code, the transport, or an invalid response.
pub data RpcFailure : Type 0 where
  error_response : ℤ → RpcFailure
  transport_failed : RpcFailure
  invalid_response : RpcFailure

unfoldable pub is_rate_limit : ℤ → Bool
is_rate_limit (pos n) = n == 429
is_rate_limit (negsuc n) = n == 32004 || n == 32015

unfoldable pub classify : RpcFailure → ChainError
unfolding is_rate_limit
classify (error_response code) =
    if is_rate_limit code then Error.rate_limited none else Error.rpc code
classify transport_failed = Error.transport "RPC transport failed"
classify invalid_response = Error.decode "invalid JSON-RPC response"

-- `u64::from_str_radix(raw, 16)`: one leading `+` is accepted.
unfoldable pub hex_digit : ℕ → Option ℕ
hex_digit c =
    if leb b'0' c && leb c b'9'
    then some (c - 48)
    else if leb b'a' c && leb c b'f'
    then some (c - 87)
    else if leb b'A' c && leb c b'F'
    then some (c - 55)
    else none

unfoldable pub read_hex : ℕ → Bytes → Option ℕ
unfolding hex_digit
read_hex acc [] = some acc
read_hex acc (c ∷ s) = elim (hex_digit c) [
  | none ↦ none
  | some d ↦
      let value = acc * 16 + d in
      let rest = read_hex value s in if leb value u64_max then rest else none
]

unfoldable pub from_str_radix : Bytes → Option ℕ
unfolding read_hex
from_str_radix [] = none
from_str_radix (c ∷ []) = read_hex 0 (c ∷ [])
from_str_radix (c ∷ d ∷ s) = if c == b'+' then read_hex 0 (d ∷ s) else read_hex 0 (c ∷ d ∷ s)

-- Digits behind `0x`, without a leading zero but for zero itself.
unfoldable pub quantity_digits : Bytes → Option Bytes
quantity_digits (z ∷ x ∷ c ∷ []) = if z == b'0' && x == b'x' then some (c ∷ []) else none
quantity_digits (z ∷ x ∷ c ∷ d ∷ s) =
    if z == b'0' && x == b'x' && not (c == b'0') then some (c ∷ d ∷ s) else none
quantity_digits _ = none

pub record RpcClient : Type 0 where
  pub providers : ℕ
  pub chain_id : ℕ
  pub attempts : ℕ

unfoldable pub delay : ℕ → ℕ
delay attempt = min (100 * 2 ^ min attempt 6) 5000

module _ {Json : Type 0} (as_str : Json → Option Bytes) where
  unfoldable pub quantity : Json → Result ChainError ℕ
  unfolding quantity_digits from_str_radix
  quantity value = elim (as_str value) [
    | none ↦ err (Error.decode "invalid RPC quantity")
    | some raw ↦ elim (quantity_digits raw) [
      | none ↦ err (Error.decode "invalid RPC quantity")
      | some digits ↦ elim (from_str_radix digits) [
        | none ↦ err (Error.decode "RPC quantity exceeds u64")
        | some n ↦ ok n
      ]
    ]
  ]

  -- What one endpoint answers to one attempt.
  pub record Reply : Type 0 where
    pub timed_out : Bool
    pub id : Result RpcFailure Json
    pub value : Result RpcFailure Json

  -- An attempt: the endpoint's chain id first, then the call itself.
  unfoldable pub attempt_once : RpcClient → Bool → Reply → Result ChainError Json
  unfolding classify quantity
  attempt_once client asks_chain_id reply =
      if reply.timed_out then err (Error.transport "RPC request timed out") else (do
        id ← map_err classify reply.id
        actual ← quantity id
        ensure (actual == client.chain_id)
            (Error.chain_id_mismatch (to_string client.chain_id) (to_string actual))
        if asks_chain_id then ok id else map_err classify reply.value)

  -- The loop over the attempts, with the delays it sleeps: the endpoint of an attempt is its index
  -- modulo their number.
  unfoldable pub request_loop :
      RpcClient → Bool → (ℕ → ℕ → Reply) → ℕ → ℕ → Result ChainError Json × List ℕ
  request_loop client asks_chain_id endpoint zero attempt =
      (err (Error.other "RPC attempt budget exhausted"), [])
  request_loop client asks_chain_id endpoint (suc left) attempt =
      let (result, delays) = request_loop client asks_chain_id endpoint left (suc attempt) in
      elim (attempt_once client asks_chain_id (endpoint (attempt % client.providers) attempt)) [
        | ok value ↦ (ok value, [])
        | err e ↦
            if is_retryable e && ltb (attempt + 1) client.attempts
            then (result, delay attempt ∷ delays)
            else (err e, [])
      ]

  unfoldable pub request : RpcClient → Bool → (ℕ → ℕ → Reply) → Result ChainError Json × List ℕ
  unfolding request_loop
  request client asks_chain_id endpoint =
      request_loop client asks_chain_id endpoint client.attempts 0
