-- ===== src/Proxy/Splitter/Share.antt =====
-- How much of the traffic goes to the canary.
use Prim.Native.Nat.{min}
use ts_api_gateway.Common.{
  ltb, if◌then◌else◌, or_default, ℕ, zero, suc, ◌+◌, ◌-◌, ◌*◌, ◌/◌, ◌≤◌, ◌<◌, ◌≡◌, ◌⊎◌, none, some,
  arith, Text,
}
use ts_api_gateway.Models.{Route}
use ts_api_gateway.Proxy.Splitter.{grain, stable, canary, stable_target, select_upstream}

-- The product of a value of the random source, a multiple of 2^-53, with 100, in units of 2^-53 and
-- rounded to a double.
pub record Doubles : Type 0 where
  pub times_100 : ℕ → ℕ
  -- A double below 100 lies within 2^-47 of the product that it stands for: 64 units.
  pub low : (k : ℕ) → k < grain → 100 * k ≤ times_100 k + 64
  pub high : (k : ℕ) → k < grain → times_100 k ≤ 100 * k + 64

abbrev pub weight_of : Route → ℕ
weight_of route = or_default route.canary_weight 0

configured :
    (route : Route) {host : Text} {port : ℕ}
    → route.canary_upstream_host ≡ some host
    → route.canary_upstream_port ≡ some port
    → (roll : ℕ)
    → (select_upstream roll route).variant
      ≡ (if ltb roll (weight_of route * grain) then canary else stable)
unfolding select_upstream
configured route h p roll = ground arith

-- How many of the first `n` values of the random source send a request to the canary.
pub canary_count : Doubles → Route → ℕ → ℕ
canary_count doubles route zero = 0
canary_count doubles route (suc n) =
    elim (select_upstream (doubles.times_100 n) route).variant [ canary ↦ 1 | stable ↦ 0 ]
    + canary_count doubles route n

module _ (doubles : Doubles) (route : Route) where
  canary_count-bounds :
      {host : Text} {port : ℕ}
      → route.canary_upstream_host ≡ some host
      → route.canary_upstream_port ≡ some port
      → (n : ℕ) → n ≤ grain
      → (min n ((weight_of route * grain - 64 + 99) / 100) ≤ canary_count doubles route n)
        × (canary_count doubles route n ≤ min n ((weight_of route * grain + 64 + 99) / 100))
  unfolding canary_count
  canary_count-bounds h p zero le = (omega arith, omega arith)
  canary_count-bounds h p (suc n) le =
      let rest = canary_count-bounds h p n (omega arith) in
      let lo = doubles.low n (omega arith) in
      let hi = doubles.high n (omega arith) in
      (
        ground (arith, configured route h p (doubles.times_100 n), rest.0, lo, hi),
        ground (arith, configured route h p (doubles.times_100 n), rest.1, lo, hi),
      )

share_bounds :
    (c n x : ℕ)
    → min n ((x - 64 + 99) / 100) ≤ c
    → c ≤ min n ((x + 64 + 99) / 100)
    → x ≤ 100 * n
    → (x ≤ 100 * c + 64) × (100 * c ≤ x + 163)
share_bounds c n x lo hi le = (omega arith, omega arith)

-- With a canary host and port, and products that are rounded to the nearest double, a weight of `w`
-- percent sends `w` percent of the equally likely random values to the canary, to within two values
-- of the 2^53.
pub canary_count-share :
    (doubles : Doubles) (route : Route) {host : Text} {port : ℕ}
    → route.canary_upstream_host ≡ some host
    → route.canary_upstream_port ≡ some port
    → weight_of route ≤ 100
    → (weight_of route * grain ≤ 100 * canary_count doubles route grain + 64)
      × (100 * canary_count doubles route grain ≤ weight_of route * grain + 163)
canary_count-share doubles route h p le =
    let (lo, hi) = canary_count-bounds doubles route h p grain (omega arith) in
    share_bounds (canary_count doubles route grain) grain (weight_of route * grain) lo hi
      (omega arith)

-- Without a complete canary every request goes to the stable upstream.
pub select_upstream-stable :
    (route : Route) (roll : ℕ)
    → (route.canary_upstream_host ≡ none)
      ⊎ (route.canary_upstream_port ≡ none)
      ⊎ (weight_of route ≡ 0)
    → select_upstream roll route ≡ stable_target route
unfolding select_upstream
select_upstream-stable route roll h = ground arith
