-- ===== src/Proxy/Splitter.antt =====
-- src/services/proxy/traffic-splitter.ts: stable or canary upstream, by a weighted coin flip.
-- The roll `Math.random() * 100` is a double; it is a whole number of 2^-53, since `Math.random()` is
-- one and rounding to a double keeps that. The model takes that number, the product as it was
-- rounded, and compares it with the weight in the same unit, which is exact.
pub mod Share
use ts_api_gateway.Common.{ltb, if◌then◌else◌, or_default, ℕ, ◌*◌, Bool, Option, none, some, Text}
use ts_api_gateway.Models.{Route}

abbrev pub grain : ℕ
grain = 9007199254740992

pub data Variant : Type 0 where
  stable : Variant
  canary : Variant

pub record UpstreamTarget : Type 0 where
  pub host : Text
  pub port : ℕ
  pub variant : Variant

abbrev pub stable_target : Route → UpstreamTarget
stable_target route = record {
  host = route.upstream_host;
  port = route.upstream_port;
  variant = stable;
}

-- `roll < (route.canaryWeight ?? 0)`
unfoldable pub picks_canary : ℕ → ℕ → ℕ → Bool
picks_canary unit weight roll = ltb roll (weight * unit)

-- The canary's address, when the canary is fully configured.
abbrev pub has_canary : Route → Option (Text × ℕ)
has_canary route = elim route.canary_upstream_host [
  | none ↦ none
  | some host ↦ elim route.canary_upstream_port [
    | none ↦ none
    | some port ↦ if ltb 0 (or_default route.canary_weight 0) then some (host, port) else none
  ]
]

unfoldable pub select_upstream : ℕ → Route → UpstreamTarget
unfolding picks_canary
select_upstream roll route = elim (has_canary route) [
  | none ↦ stable_target route
  | some (host, port) ↦
      if picks_canary grain (or_default route.canary_weight 0) roll
      then record { host = host; port = port; variant = canary }
      else stable_target route
]
