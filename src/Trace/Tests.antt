-- ===== src/Trace/Tests.antt =====
-- Requests with and without trace headers, and the theorems at concrete inputs.
use ts_api_gateway.Common.{
  replicate, ◌≡◌, refl, none, some, [], ◌∷◌, Text, codes, text_eq, has, split, Dict,
}
use ts_api_gateway.Gateway.{no_body, Request, string_header}
use ts_api_gateway.Proxy.{HeaderValue, one}
use ts_api_gateway.Trace.{Traceparent, parse_traceparent, trace_id_middleware}
use ts_api_gateway.Trace.Propagation.{trace_id_middleware-propagates}

abbrev hex_ids : Text
hex_ids = replicate 32 b'a'

abbrev span : Text
span = replicate 16 b'b'

abbrev with_headers : Dict HeaderValue → Request
with_headers headers = record {
  method = codes "GET";
  url = codes "/v1/orders";
  headers = headers;
  ip = none;
  body = no_body;
  context = record {
    trace_id = [];
    span_id = none;
    user_id = none;
    cache_key = none;
    cache_ttl = none;
  };
}

abbrev incoming_header : Text
incoming_header = codes "00-4bf92f3577b34da6a3ce929d0e0e4736-00f067aa0ba902b7-01"

abbrev continued : Request
continued = with_headers ((codes "traceparent", one incoming_header) ∷ [])

abbrev named : Request
named = with_headers ((codes "x-request-id", one (codes "order-7")) ∷ [])

abbrev incoming_ids : Traceparent
incoming_ids = record {
  trace_id = codes "4bf92f3577b34da6a3ce929d0e0e4736";
  parent_id = codes "00f067aa0ba902b7";
}

parsed_header : parse_traceparent incoming_header ≡ some incoming_ids
unfolding parse_traceparent split text_eq
parsed_header = refl

trace_id_middleware-propagates_example :
    (hex : Text) × (header : Text) × (string_header
        (codes "traceparent")
        (trace_id_middleware hex_ids span named).headers
      ≡ some header)
    × (parse_traceparent header ≡ some (record { trace_id = hex; parent_id = span }))
    × (string_header (codes "x-b3-traceid") (trace_id_middleware hex_ids span named).headers
        ≡ some hex)
    × (string_header (codes "x-request-id") (trace_id_middleware hex_ids span named).headers
        ≡ some (trace_id_middleware hex_ids span named).context.trace_id)
unfolding has
trace_id_middleware-propagates_example =
    trace_id_middleware-propagates hex_ids span named (refl, refl) refl refl
