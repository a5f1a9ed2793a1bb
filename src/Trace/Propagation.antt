-- ===== src/Trace/Propagation.antt =====
-- What the upstream gets of a trace.
use ts_api_gateway.CacheService.{parsed}
use ts_api_gateway.Common.{
  ◌==◌, Option-cases, length, take, replicate, keep, length-append, All, ℕ, zero, suc, ◌-◌, ◌≤◌,
  ◌≡◌, refl, ap, ◌∙◌, inl, inr, false, not, Option, none, some, List, [], ◌∷◌, ◌++◌, arith, Text,
  codes, text_eq, has, split, lookup, Dict, lookup-put,
}
use ts_api_gateway.Common.StringLaws.{has-append, split_of_has, split-append, split-All-has}
use ts_api_gateway.Gateway.{Request, string_header}
use ts_api_gateway.Proxy.{HeaderValue, one}
use ts_api_gateway.Trace.{
  Traceparent, four, parse_traceparent, pad_end, normalise_to_hex32, TraceIds, resolve_trace,
  traceparent_of, trace_id_middleware,
}

length-replicate : (n c : ℕ) → length (replicate n c) ≡ n
length-replicate zero c = refl
length-replicate (suc n) c = ap suc (length-replicate n c)

length-take_of_le : (n : ℕ) (s : Text) → n ≤ length s → length (take n s) ≡ n
length-take_of_le zero s h = refl
length-take_of_le (suc n) [] h = absurd (omega arith)
length-take_of_le (suc n) (a ∷ s) h = ap suc (length-take_of_le n s (omega arith))

has-take : (c n : ℕ) (s : Text) → has c s ≡ false → has c (take n s) ≡ false
unfolding has
has-take c zero s h = refl
has-take c (suc n) [] h = refl
has-take c (suc n) (a ∷ s) h = ground (arith, has-take c n s)

has-replicate : (c d n : ℕ) → (d == c) ≡ false → has c (replicate n d) ≡ false
unfolding has
has-replicate c d zero h = refl
has-replicate c d (suc n) h = rw h (has-replicate c d n h)

has-keep : (s : Text) → has b'-' (keep (λ c. not (c == b'-')) s) ≡ false
unfolding has
has-keep [] = refl
has-keep (a ∷ s) = ground (arith, has-keep s)

-- What the gateway's parser asks of a trace id: 32 characters and no dash. Neither the parser nor
-- `normaliseToHex32` looks whether they are hex digits.
abbrev pub IsTraceId : Text → Type 0
IsTraceId s = (length s ≡ 32) × (has b'-' s ≡ false)

normalise_to_hex32-IsTraceId : (id : Text) → IsTraceId (normalise_to_hex32 id)
unfolding normalise_to_hex32
normalise_to_hex32-IsTraceId id =
    let kept = keep (λ c. not (c == b'-')) id in
    let padded = length-append kept (replicate (32 - length kept) b'0') in
    (
      length-take_of_le 32 (pad_end 32 kept)
          (omega (arith, padded, length-replicate (32 - length kept) b'0')),
      has-take b'-' 32 (pad_end 32 kept) (
          has-append b'-' kept (replicate (32 - length kept) b'0') (has-keep id)
            (has-replicate b'-' b'0' (32 - length kept) refl)),
    )

four-second :
    (ps : List Text) (a b c d : Text)
    → All (λ p. has b'-' p ≡ false) ps
    → four ps ≡ some (a, b, c, d)
    → has b'-' b ≡ false
four-second (p ∷ q ∷ r ∷ s ∷ []) a b c d h e = ground (arith, h.1.0)
four-second _ a b c d h e = cc

parse_traceparent-IsTraceId :
    (header : Text) (parsed : Traceparent)
    → parse_traceparent header ≡ some parsed
    → IsTraceId parsed.trace_id
unfolding parse_traceparent
parse_traceparent-IsTraceId header parsed e = elim (Option-cases (four (split b'-' header))) [
  | inl none_found ↦ ground (arith, none_found)
  | inr ((a, b, c, d), found) ↦
      ground
        (arith, found, four-second (split b'-' header) a b c d (split-All-has b'-' header) found)
]

-- Whatever headers come in, the id that is passed on has 32 characters and no dash.
resolve_trace-IsTraceId :
    (random_hex : Text) (incoming request_id : Option Text)
    → IsTraceId random_hex
    → IsTraceId (resolve_trace random_hex incoming request_id).trace_id_hex
unfolding resolve_trace
resolve_trace-IsTraceId random_hex (some incoming) request_id h =
    elim (Option-cases (parse_traceparent incoming)) [
      | inl bad ↦ rw (bad, resolve_trace) h
      | inr (parsed, good) ↦
          rw (good, resolve_trace) (parse_traceparent-IsTraceId incoming parsed good)
    ]
resolve_trace-IsTraceId random_hex none (some request_id) h =
    normalise_to_hex32-IsTraceId request_id
resolve_trace-IsTraceId random_hex none none h = h

-- The gateway's own headers are accepted by its own parser.
parse_traceparent-traceparent_of :
    (hex span_id : Text)
    → IsTraceId hex
    → length span_id ≡ 16
    → has b'-' span_id ≡ false
    → parse_traceparent (traceparent_of hex span_id)
      ≡ some (record { trace_id = hex; parent_id = span_id })
unfolding parse_traceparent
parse_traceparent-traceparent_of hex span_id h n d =
    let parts : split b'-' (traceparent_of hex span_id)
        ≡ codes "00" ∷ hex ∷ span_id ∷ codes "01" ∷ [] =
      split-append b'-' (codes "00") (hex ++ (codes "-" ++ (span_id ++ codes "-01")))
        (unfold has in refl)
      ∙ ap (◌∷◌ (codes "00")) (
          split-append b'-' hex (span_id ++ codes "-01") h.1
          ∙ ap (◌∷◌ hex) (
              split-append b'-' span_id (codes "01") d
              ∙ ap (◌∷◌ span_id) (split_of_has b'-' (codes "01") (unfold has in refl)))) in
    ground (arith, parts, h.0, n)

module _ (random_hex span_id : Text) (req : Request) where
  abbrev ids : TraceIds
  ids =
      resolve_trace random_hex (string_header (codes "traceparent") req.headers)
        (string_header (codes "x-request-id") req.headers)

  of_value :
      (v : Text) (name : Text) (headers : Dict HeaderValue)
      → lookup name headers ≡ some (one v)
      → string_header name headers ≡ some v
  of_value v name headers e = ground (arith, e)

  at_traceparent :
      string_header (codes "traceparent") (trace_id_middleware random_hex span_id req).headers
      ≡ some (traceparent_of ids.trace_id_hex span_id)
  unfolding trace_id_middleware text_eq
  at_traceparent =
      of_value (traceparent_of ids.trace_id_hex span_id) (codes "traceparent")
        (trace_id_middleware random_hex span_id req).headers (simp lookup-put)

  at_b3 :
      string_header (codes "x-b3-traceid") (trace_id_middleware random_hex span_id req).headers
      ≡ some ids.trace_id_hex
  unfolding trace_id_middleware text_eq
  at_b3 =
      of_value ids.trace_id_hex (codes "x-b3-traceid")
        (trace_id_middleware random_hex span_id req).headers (simp lookup-put)

  at_request_id :
      string_header (codes "x-request-id") (trace_id_middleware random_hex span_id req).headers
      ≡ some (trace_id_middleware random_hex span_id req).context.trace_id
  unfolding trace_id_middleware text_eq
  at_request_id =
      of_value ids.trace_id (codes "x-request-id")
        (trace_id_middleware random_hex span_id req).headers (simp lookup-put)

-- For random ids of 32 and 16 characters without a dash the headers after the middleware carry one
-- trace: the gateway's own parser, which does not ask for hex digits, reads from `traceparent` the
-- trace id of `x-b3-traceid`, with the gateway's span as the parent, and `x-request-id` is the trace
-- id that the rest of the gateway sees.
pub trace_id_middleware-propagates :
    (random_hex span_id : Text) (req : Request)
    → IsTraceId random_hex
    → length span_id ≡ 16
    → has b'-' span_id ≡ false
    → (hex : Text) × (header : Text) × (string_header
          (codes "traceparent")
          (trace_id_middleware random_hex span_id req).headers
        ≡ some header)
      × (parse_traceparent header ≡ some (record { trace_id = hex; parent_id = span_id }))
      × (string_header (codes "x-b3-traceid") (trace_id_middleware random_hex span_id req).headers
          ≡ some hex)
      × (string_header (codes "x-request-id") (trace_id_middleware random_hex span_id req).headers
          ≡ some (trace_id_middleware random_hex span_id req).context.trace_id)
trace_id_middleware-propagates random_hex span_id req h n d =
    let incoming = string_header (codes "traceparent") req.headers in
    let request_id = string_header (codes "x-request-id") req.headers in
    let hex = (resolve_trace random_hex incoming request_id).trace_id_hex in
    (
      hex,
      traceparent_of hex span_id,
      at_traceparent random_hex span_id req,
      parse_traceparent-traceparent_of hex span_id
          (resolve_trace-IsTraceId random_hex incoming request_id h) n d,
      at_b3 random_hex span_id req,
      at_request_id random_hex span_id req,
    )

module _ (random_hex span_id : Text) (req : Request) where
  context_trace_id :
      (trace_id_middleware random_hex span_id req).context.trace_id
      ≡ (resolve_trace random_hex
          (string_header (codes "traceparent") req.headers)
          (string_header (codes "x-request-id") req.headers)).trace_id
  unfolding trace_id_middleware
  context_trace_id = refl

  resolve_trace_parsed :
      (header : Text) (parsed : Traceparent) (request_id : Option Text)
      → parse_traceparent header ≡ some parsed
      → (resolve_trace random_hex (some header) request_id).trace_id ≡ parsed.trace_id
  unfolding resolve_trace
  resolve_trace_parsed header parsed request_id f = ground (arith, f)

  -- A request with a `traceparent` that the parser accepts keeps the trace id of that header, also beside an
  -- `x-request-id`.
  pub trace_id_middleware-continues :
      (header : Text) (parsed : Traceparent)
      → string_header (codes "traceparent") req.headers ≡ some header
      → parse_traceparent header ≡ some parsed
      → (trace_id_middleware random_hex span_id req).context.trace_id ≡ parsed.trace_id
  trace_id_middleware-continues header parsed e f =
      let request_id = string_header (codes "x-request-id") req.headers in
      context_trace_id
      ∙ ap (λ x. (resolve_trace random_hex x request_id).trace_id) e
      ∙ resolve_trace_parsed header parsed request_id f
