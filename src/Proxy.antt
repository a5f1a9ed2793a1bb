-- ===== src/Proxy.antt =====
-- src/services/proxy: what the modules below share, the types of http-proxy.ts and the values that
-- a promise settles to. A JavaScript `throw` may carry anything; the code looks at the name, the
-- code and the message of an `Error`.
pub mod Retry
pub mod Splitter
pub mod Forward
mod Tests
use ts_api_gateway.Common.{ℕ, ◌≡◌, refl, ◌⊎◌, inl, inr, Option, List, Text, Dict}
use ts_api_gateway.Models.{Route}

pub data Thrown : Type 0 where
  error : (name message : Text) (code : Option Text) → Thrown
  not_an_error : Thrown

-- A settled promise.
pub data Outcome {ℓ} (T : Type ℓ) : Type ℓ where
  resolved : T → Outcome T
  thrown : Thrown → Outcome T

-- `string | string[]`
pub data HeaderValue : Type 0 where
  one : Text → HeaderValue
  many : List Text → HeaderValue

-- `body` is a buffer of bytes. A signal is its timeout in milliseconds.
pub record ProxyOptions : Type 0 where
  pub route : Route
  pub upstream_path : Text
  pub method : Text
  pub headers : Dict (Option HeaderValue)
  pub body : Option (List ℕ)
  pub trace_id : Text
  pub query_string : Text
  pub signal : Option ℕ

pub record ProxyResult : Type 0 where
  pub status_code : ℕ
  pub headers : Dict HeaderValue
  pub body : List ℕ
  pub upstream_latency_ms : ℕ

pub Outcome-cases :
    {T : Type 0} (o : Outcome T) → ((t : T) × (o ≡ resolved t)) ⊎ ((e : Thrown) × (o ≡ thrown e))
Outcome-cases (resolved t) = inl (t, refl)
Outcome-cases (thrown e) = inr (e, refl)
