-- ===== src/Breakers/Tests.antt =====
-- A breaker that opens, goes half open and stays so, beside another one.
use ts_api_gateway.Breakers.{get_breaker, BreakerEvent, opens, closes, half_opens, on_events}
use ts_api_gateway.Breakers.Flags.{on_events-last_flag, get_breaker-keeps}
use ts_api_gateway.Common.{
  length, ◌≡◌, true, some, List, [], ◌∷◌, Text, codes, text_eq, decimal, lookup,
}
use ts_api_gateway.Metrics.{init, get_metrics}

abbrev half_open_run : List (Text × BreakerEvent)
half_open_run =
    (codes "a:80", opens)
    ∷ (codes "b:80", opens)
    ∷ (codes "b:80", closes)
    ∷ (codes "a:80", half_opens)
    ∷ []

on_events-last_flag_example :
    lookup (codes "a:80") (get_metrics 5 (on_events half_open_run (init 0))).circuit_breakers
    ≡ some true
unfolding text_eq lookup decimal
on_events-last_flag_example = on_events-last_flag (codes "a:80") 5 half_open_run (init 0)

-- A breaker is a number here.
get_breaker-keeps_example :
    let (breaker, breakers') =
      get_breaker (λ (key : Text). length key) (codes "a") 80 ((codes "b:80", 1) ∷ []) in
    (lookup (codes "a:80") breakers' ≡ some breaker)
    × (get_breaker (λ (key : Text). length key) (codes "a") 80 breakers' ≡ (breaker, breakers'))
    × (lookup (codes "b:80") breakers' ≡ some 1)
unfolding text_eq lookup decimal
get_breaker-keeps_example =
    get_breaker-keeps (λ (key : Text). length key) (codes "a") 80 (codes "b:80")
      ((codes "b:80", 1) ∷ [])
