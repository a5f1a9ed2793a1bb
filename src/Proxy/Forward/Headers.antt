-- ===== src/Proxy/Forward/Headers.antt =====
-- Which headers reach the upstream, and which come back.
use ts_api_gateway.Common.{
  if◌then◌else◌, Bool-cases, ℕ, ◌-◌, ◌≡◌, refl, ap, ◌∙◌, inl, inr, Bool, true, false, Option, none,
  some, List, [], ◌∷◌, arith, Text, codes, text_eq, text_eq_iff, lookup, put, Dict, lookup-put,
}
use ts_api_gateway.Proxy.{Outcome, resolved, HeaderValue, one, ProxyOptions, ProxyResult}
use ts_api_gateway.Proxy.Forward.{
  hop_by_hop, to_lower, forward_headers, ClientRequest, ClientResponse, response_headers,
  client_request, proxy_request, clean_headers, defined_headers, finish,
}
use ts_api_gateway.Proxy.Retry.{member}

-- The last value that a list of headers gives a name.
abbrev pub last_value : Text → Dict (Option HeaderValue) → Option HeaderValue → Option HeaderValue
last_value k [] acc = acc
last_value k ((key, none) ∷ headers) acc = last_value k headers acc
last_value k ((key, some value) ∷ headers) acc =
    last_value k headers (if text_eq key k then some value else acc)

abbrev pub is_hop_by_hop : Text → Bool
is_hop_by_hop name = member (to_lower name) hop_by_hop

lookup-clean_headers_hop :
    (k : Text) (headers : Dict (Option HeaderValue)) (acc : Dict HeaderValue)
    → is_hop_by_hop k ≡ true
    → lookup k (clean_headers headers acc) ≡ lookup k acc
unfolding clean_headers
lookup-clean_headers_hop k [] acc h = refl
lookup-clean_headers_hop k ((key, none) ∷ headers) acc h = lookup-clean_headers_hop k headers acc h
lookup-clean_headers_hop k ((key, some v) ∷ headers) acc h = elim (Bool-cases (is_hop_by_hop key)) [
  | inl hop ↦ rw hop (lookup-clean_headers_hop k headers acc h)
  | inr clean ↦ rw clean (
      lookup-clean_headers_hop k headers (put key v acc) h
      ∙ ground (arith, lookup-put key k v acc, text_eq_iff key k))
]

lookup-clean_headers_kept :
    (k : Text) (headers : Dict (Option HeaderValue)) (acc : Dict HeaderValue)
    → is_hop_by_hop k ≡ false
    → lookup k (clean_headers headers acc) ≡ last_value k headers (lookup k acc)
unfolding clean_headers
lookup-clean_headers_kept k [] acc h = refl
lookup-clean_headers_kept k ((key, none) ∷ headers) acc h =
    lookup-clean_headers_kept k headers acc h
lookup-clean_headers_kept k ((key, some v) ∷ headers) acc h =
    elim (Bool-cases (is_hop_by_hop key)) [
      | inl hop ↦ rw hop (
          lookup-clean_headers_kept k headers acc h
          ∙ ap (last_value k headers) (ground (arith, text_eq_iff key k)))
      | inr clean ↦ rw clean (
          lookup-clean_headers_kept k headers (put key v acc) h
          ∙ ap (last_value k headers) (lookup-put key k v acc))
    ]

lookup-clean_headers :
    (k : Text) (headers : Dict (Option HeaderValue))
    → lookup k (clean_headers headers [])
      ≡ (if is_hop_by_hop k then none else last_value k headers none)
lookup-clean_headers k headers = elim (Bool-cases (is_hop_by_hop k)) [
  | inl hop ↦ rw hop (lookup-clean_headers_hop k headers [] hop ∙ unfold lookup in refl)
  | inr clean ↦ rw clean (
      lookup-clean_headers_kept k headers [] clean
      ∙ ap (last_value k headers) (unfold lookup in refl))
]

-- A forwarded header is the gateway's own mark, the trace id, or the client's last value for the
-- name; of the hop-by-hop headers none is forwarded.
pub lookup-forward_headers :
    (options : ProxyOptions) (k : Text)
    → lookup k (forward_headers options) ≡ (
        if text_eq (codes "x-forwarded-by") k
        then some (one (codes "ts-api-gateway"))
        else if text_eq (codes "x-request-id") k
        then some (one options.trace_id)
        else if is_hop_by_hop k
        then none
        else last_value k options.headers none)
unfolding forward_headers
lookup-forward_headers options k = simp (lookup-put, lookup-clean_headers)

lookup-defined_headers :
    (k : Text) (headers : Dict (Option HeaderValue)) (acc : Dict HeaderValue)
    → lookup k (defined_headers headers acc) ≡ last_value k headers (lookup k acc)
unfolding defined_headers
lookup-defined_headers k [] acc = refl
lookup-defined_headers k ((key, none) ∷ headers) acc = lookup-defined_headers k headers acc
lookup-defined_headers k ((key, some v) ∷ headers) acc =
    lookup-defined_headers k headers (put key v acc)
    ∙ ap (last_value k headers) (lookup-put key k v acc)

lookup-response_headers :
    (k : Text) (options : ProxyOptions) (response : ClientResponse)
    → lookup k (response_headers options response) ≡ (
        if text_eq (codes "x-request-id") k
        then some (one options.trace_id)
        else last_value k response.headers none)
unfolding response_headers lookup
lookup-response_headers k options response = simp (lookup-put, lookup-defined_headers)

-- A response whose body is read passes on with its status, its body and its headers, but for the trace
-- id, which is set to the request's own.
pub proxy_request-settles :
    {W : Type 0} (now : W → ℕ) (undici_request : ClientRequest → W → Outcome ClientResponse × W)
    (read_body : ClientResponse → W → Outcome (List ℕ) × W) (options : ProxyOptions) (w : W)
    (response : ClientResponse) (b : List ℕ) (k : Text)
    → let (answered, w1) = undici_request (client_request options) w in
      answered ≡ resolved response
      → (read_body response w1).0 ≡ resolved b
      → (result : ProxyResult) × ((proxy_request now undici_request read_body options w).0
          ≡ resolved result)
        × (result.status_code ≡ response.status_code)
        × (result.body ≡ b)
        × (result.upstream_latency_ms ≡ now w1 - now w)
        × (lookup k result.headers ≡ (
            if text_eq (codes "x-request-id") k
            then some (one options.trace_id)
            else last_value k response.headers none))
unfolding proxy_request finish
proxy_request-settles now undici_request read_body options w response b k answered content = (
  record {
    status_code = response.status_code;
    headers = response_headers options response;
    body = b;
    upstream_latency_ms = now (undici_request (client_request options) w).1 - now w;
  },
  ground (arith, answered, content),
  refl,
  refl,
  refl,
  lookup-response_headers k options response,
)
