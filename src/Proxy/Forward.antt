-- ===== src/Proxy/Forward.antt =====
-- src/services/proxy/http-proxy.ts: what is sent to the upstream and what comes back. The HTTP
-- client `undici` and the clock are parameters; they act on a state that stands for the world.
pub mod Headers
use ts_api_gateway.Common.{
  leb, if◌then◌else◌, ℕ, ◌+◌, ◌-◌, ◌&&◌, Option, none, some, List, [], ◌∷◌, ◌++◌, map, Text, codes,
  text_eq, decimal, put, Dict,
}
use ts_api_gateway.Proxy.{Outcome, resolved, thrown, HeaderValue, one, ProxyOptions, ProxyResult}
use ts_api_gateway.Proxy.Retry.{member}

abbrev pub hop_by_hop : List Text
hop_by_hop =
    codes "connection"
    ∷ codes "keep-alive"
    ∷ codes "transfer-encoding"
    ∷ codes "te"
    ∷ codes "trailer"
    ∷ codes "upgrade"
    ∷ codes "proxy-authorization"
    ∷ codes "proxy-authenticate"
    ∷ codes "host"
    ∷ []

-- `s.toLowerCase()` for header names, which are ASCII.
unfoldable pub to_lower : Text → Text
to_lower = map (λ c. if leb b'A' c && leb c b'Z' then c + 32 else c)

-- The loop over the request's headers. A header whose value is `undefined` is dropped.
clean_headers : Dict (Option HeaderValue) → Dict HeaderValue → Dict HeaderValue
clean_headers [] acc = acc
clean_headers ((key, none) ∷ headers) acc = clean_headers headers acc
clean_headers ((key, some value) ∷ headers) acc =
    clean_headers headers (if member (to_lower key) hop_by_hop then acc else put key value acc)

unfoldable pub forward_headers : ProxyOptions → Dict HeaderValue
unfolding clean_headers member to_lower put
forward_headers options =
    put (codes "x-forwarded-by") (one (codes "ts-api-gateway"))
      (put (codes "x-request-id") (one options.trace_id) (clean_headers options.headers []))

unfoldable pub request_url : ProxyOptions → Text
unfolding decimal text_eq
request_url options =
    let route = options.route in
    let qs = if text_eq options.query_string [] then [] else codes "?" ++ options.query_string in
    codes "http://"
    ++ (route.upstream_host
        ++ (codes ":" ++ (decimal route.upstream_port ++ (options.upstream_path ++ qs))))

-- The options of `undici.request`, less the dispatcher.
pub record ClientRequest : Type 0 where
  pub url : Text
  pub method : Text
  pub headers : Dict HeaderValue
  pub body : Option (List ℕ)
  pub headers_timeout : ℕ
  pub signal : Option ℕ

pub record ClientResponse : Type 0 where
  pub status_code : ℕ
  pub headers : Dict (Option HeaderValue)

-- `body?.length ? body : undefined`
abbrev pub nonempty_body : Option (List ℕ) → Option (List ℕ)
nonempty_body none = none
nonempty_body (some []) = none
nonempty_body (some (b ∷ bs)) = some (b ∷ bs)

defined_headers : Dict (Option HeaderValue) → Dict HeaderValue → Dict HeaderValue
defined_headers [] acc = acc
defined_headers ((key, none) ∷ headers) acc = defined_headers headers acc
defined_headers ((key, some value) ∷ headers) acc = defined_headers headers (put key value acc)

unfoldable pub response_headers : ProxyOptions → ClientResponse → Dict HeaderValue
unfolding defined_headers put
response_headers options response =
    put (codes "x-request-id") (one options.trace_id) (defined_headers response.headers [])

-- What follows the call of the client: the clock is read, then the body. An error of either is thrown
-- on.
finish :
    {W : Type 0}
    → (W → ℕ)
    → (ClientResponse → W → Outcome (List ℕ) × W)
    → ProxyOptions
    → ℕ
    → Outcome ClientResponse × W
    → Outcome ProxyResult × W
finish now read_body options start (thrown err, w) = (thrown err, w)
finish now read_body options start (resolved response, w) =
    let latency = now w - start in
    let (content, w') = read_body response w in
    elim content [
      | thrown err ↦ (thrown err, w')
      | resolved b ↦ (
        resolved (record {
          status_code = response.status_code;
          headers = response_headers options response;
          body = b;
          upstream_latency_ms = latency;
        }),
        w',
      )
    ]

abbrev pub client_request : ProxyOptions → ClientRequest
client_request options = record {
  url = request_url options;
  method = options.method;
  headers = forward_headers options;
  body = nonempty_body options.body;
  headers_timeout = options.route.connect_timeout_ms;
  signal = options.signal;
}

module _ {W : Type 0} (now : W → ℕ)
    (undici_request : ClientRequest → W → Outcome ClientResponse × W)
    (read_body : ClientResponse → W → Outcome (List ℕ) × W) where
  unfoldable pub proxy_request : ProxyOptions → W → Outcome ProxyResult × W
  unfolding finish
  proxy_request options w =
      finish now read_body options (now w) (undici_request (client_request options) w)
