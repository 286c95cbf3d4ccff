-- ===== src/Config/Endpoint.antt =====
-- crates/config/src/endpoint.rs: which endpoints are accepted, and how one is shown. The crate url
-- is a parameter.
use superquery_node.Common.{
  Result, err, ok, ensure, ◌>>=◌, ◌>>◌, map_err, Bytes, ascii, bytes_eq, String, ◌≡◌, refl, Bool,
  true, false, not, ◌&&◌, ◌||◌, Option, none, some, arith,
}
use superquery_node.Config.Url.{Url}

abbrev is_given {ℓ} : {A : Type ℓ} → Option A → Bool
is_given none = false
is_given (some a) = true

given : (o : Option Bytes) → is_given o ≡ true → (a : Bytes) × (o ≡ some a)
given none e = cc
given (some a) e = (a, refl)

unfoldable pub is_http : Bytes → Bool
is_http scheme = bytes_eq scheme (ascii "http") || bytes_eq scheme (ascii "https")

module _ (parse : Bytes → Result Bytes Url) where
  unfoldable pub validate_endpoint : Bytes → Result String Url
  validate_endpoint raw = do
    url ← map_err (λ _. "invalid RPC URL") (parse raw)
    ensure (is_http url.scheme && is_given url.host_str)
        "RPC endpoints require http or https and a host"
    ensure (not (is_given url.fragment)) "RPC endpoints must not contain fragments"
    ok url

  unfoldable pub redact_endpoint : Bytes → Bytes
  redact_endpoint raw = elim (parse raw) [ err e ↦ ascii "***" | ok url ↦ url.origin ]

  abbrev pub IsEndpoint : Bytes → Type 0
  IsEndpoint raw =
      (url : Url) × (host : Bytes) × (parse raw ≡ ok url)
      × (is_http url.scheme ≡ true)
      × (url.host_str ≡ some host)
      × (url.fragment ≡ none)

  -- An endpoint that is accepted is a URL of http or https with a host and no fragment, and is
  -- shown by its origin alone.
  pub validate_endpoint-IsEndpoint :
      (raw : Bytes) (url : Url)
      → validate_endpoint raw ≡ ok url
      → IsEndpoint raw × (redact_endpoint raw ≡ url.origin)
  unfolding validate_endpoint redact_endpoint
  validate_endpoint-IsEndpoint raw url e =
      let parsed : parse raw ≡ ok url = ground (arith, e) in
      let (host, there) = given url.host_str (ground (arith, e, parsed)) in
      (
        (url, host, parsed, ground (arith, e, parsed), there, ground (arith, e, parsed)),
        ground (arith, parsed),
      )
