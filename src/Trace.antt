-- ===== src/Trace.antt =====
-- src/middlewares/trace-id.middleware.ts: the trace id of a request and the headers that carry it.
-- The random ids are arguments: the texts that `randomBytes(16)` and `randomBytes(8)` give in hex.
pub mod Propagation
mod Tests
use ts_api_gateway.Common.{
  ◌==◌, if◌then◌else◌, length, take, replicate, keep, ℕ, ◌-◌, not, Option, none, some, List, [],
  ◌∷◌, ◌++◌, Text, codes, text_eq, split, put,
}
use ts_api_gateway.Gateway.{Request, string_header}
use ts_api_gateway.Proxy.{one}

pub record Traceparent : Type 0 where
  pub trace_id : Text
  pub parent_id : Text

-- The four parts of a header, if there are four.
abbrev pub four : List Text → Option (Text × Text × Text × Text)
four (a ∷ b ∷ c ∷ d ∷ []) = some (a, b, c, d)
four _ = none

unfoldable pub parse_traceparent : Text → Option Traceparent
unfolding split text_eq
parse_traceparent header = elim (four (split b'-' header)) [
  | none ↦ none
  | some (version, trace_id, parent_id, flags) ↦
      if not (text_eq version (codes "00"))
      then none
      else if not (length trace_id == 32)
      then none
      else if not (length parent_id == 16)
      then none
      else some (record { trace_id = trace_id; parent_id = parent_id })
]

-- `s.padEnd(n, '0')`
abbrev pub pad_end : ℕ → Text → Text
pad_end n s = s ++ replicate (n - length s) b'0'

unfoldable pub normalise_to_hex32 : Text → Text
normalise_to_hex32 id = take 32 (pad_end 32 (keep (λ c. not (c == b'-')) id))

-- The trace id as it is passed on, and in the form of the headers.
pub record TraceIds : Type 0 where
  pub trace_id : Text
  pub trace_id_hex : Text

unfoldable pub resolve_trace : Text → Option Text → Option Text → TraceIds
unfolding parse_traceparent normalise_to_hex32
resolve_trace random_hex (some incoming) request_id = elim (parse_traceparent incoming) [
  | some parsed ↦ record { trace_id = parsed.trace_id; trace_id_hex = parsed.trace_id }
  | none ↦ record { trace_id = random_hex; trace_id_hex = random_hex }
]
resolve_trace random_hex none (some request_id) = record {
  trace_id = request_id;
  trace_id_hex = normalise_to_hex32 request_id;
}
resolve_trace random_hex none none = record { trace_id = random_hex; trace_id_hex = random_hex }

abbrev pub traceparent_of : Text → Text → Text
traceparent_of trace_id_hex span_id =
    codes "00-" ++ (trace_id_hex ++ (codes "-" ++ (span_id ++ codes "-01")))

unfoldable pub trace_id_middleware : Text → Text → Request → Request
trace_id_middleware random_hex span_id req =
    let ids =
      resolve_trace random_hex (string_header (codes "traceparent") req.headers)
        (string_header (codes "x-request-id") req.headers) in
    record req {
      headers = put (codes "x-request-id") (one ids.trace_id) (
          put (codes "x-b3-sampled") (one (codes "1")) (
            put (codes "x-b3-spanid") (one span_id) (
              put (codes "x-b3-traceid") (one ids.trace_id_hex) (
                put (codes "traceparent") (one (traceparent_of ids.trace_id_hex span_id))
                  req.headers))));
      context = record req.context { trace_id = ids.trace_id; span_id = some span_id };
    }
