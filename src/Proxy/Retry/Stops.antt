-- ===== src/Proxy/Retry/Stops.antt =====
-- The retry loop against the sequence of outcomes that its attempts would have.
use native.Mathlib.Decide.{ℕ_discrete}
use native.Mathlib.Numerals.{add-one}
use ts_api_gateway.Common.{
  Bool-cases, ℕ, zero, suc, ◌+◌, ◌≤◌, ◌<◌, ◌≡◌, ◌≢◌, ◌⊎◌, inl, inr, Bool, true, false, Option, none,
  some, List, [], ◌∷◌, ◌++◌, arith,
}
use ts_api_gateway.Proxy.{Thrown, Outcome, resolved, thrown, Outcome-cases}
use ts_api_gateway.Proxy.Retry.{is_retryable_error, execute_with_retry, attempt_from}

-- A world that numbers the calls of `fn` and keeps what `onRetry` is told.
pub record Trace : Type 0 where
  pub calls : ℕ
  pub notices : List (ℕ × Option Thrown)

abbrev pub fresh : Trace
fresh = record { calls = 0; notices = [] }

module _ {T : Type 0} (outcomes : ℕ → Outcome T) (should_retry : T → Bool) where
  -- The `i`-th call settles to the `i`-th outcome.
  abbrev pub scripted : Trace → Outcome T × Trace
  scripted w = (outcomes w.calls, record w { calls = w.calls + 1 })

  abbrev pub note : ℕ → Option Thrown → Trace → Trace
  note n err w = record w { notices = w.notices ++ ((n, err) ∷ []) }

  abbrev pub wants_retry : Outcome T → Bool
  wants_retry (resolved t) = should_retry t
  wants_retry (thrown e) = is_retryable_error e

  abbrev pub reason : Outcome T → Option Thrown
  reason (resolved t) = none
  reason (thrown e) = some e

  -- Attempt `k` is where the loop must stop: all before it want a retry, and it is the last one
  -- allowed or wants none.
  pub record IsStop (max_retries k : ℕ) : Type 0 where
    pub within : k ≤ max_retries
    pub earlier : (j : ℕ) → j < k → wants_retry (outcomes j) ≡ true
    pub final : (k ≡ max_retries) ⊎ (wants_retry (outcomes k) ≡ false)

  -- What the first `k` attempts report.
  abbrev pub reports : ℕ → List (ℕ × Option Thrown)
  reports zero = []
  reports (suc k) = reports k ++ ((k + 1, reason (outcomes k)) ∷ [])

  abbrev after : ℕ → Trace
  after k = record { calls = k; notices = reports k }

  -- One round that does not stop.
  round_again :
      (max_retries rounds k : ℕ)
      → wants_retry (outcomes k) ≡ true
      → k ≢ max_retries
      → attempt_from scripted should_retry note max_retries (suc rounds) k (after k)
        ≡ attempt_from scripted should_retry note max_retries rounds (suc k) (after (suc k))
  unfolding attempt_from
  round_again max_retries rounds k h ne = elim (Outcome-cases (outcomes k)) [
    | inl (t, e) ↦ ground (arith, e)
    | inr (t, e) ↦ ground (arith, e)
  ]

  round_stops :
      (max_retries rounds k : ℕ)
      → (k ≡ max_retries) ⊎ (wants_retry (outcomes k) ≡ false)
      → attempt_from scripted should_retry note max_retries (suc rounds) k (after k)
        ≡ (outcomes k, record (after k) { calls = k + 1 })
  unfolding attempt_from
  round_stops max_retries rounds k h = elim (Outcome-cases (outcomes k)) [
    | inl (t, e) ↦ ground (arith, e)
    | inr (t, e) ↦ ground (arith, e)
  ]

  -- The loop from a round that is not yet the stop.
  runs_from :
      (max_retries rounds k : ℕ)
      → rounds + k ≡ max_retries + 1
      → k ≤ max_retries
      → ((j : ℕ) → j < k → wants_retry (outcomes j) ≡ true)
      → (s : ℕ) × IsStop max_retries s
        × (attempt_from scripted should_retry note max_retries rounds k (after k)
            ≡ (outcomes s, record (after s) { calls = s + 1 }))
  runs_from max_retries zero k e le h = absurd (omega arith)
  runs_from max_retries (suc rounds) k e le h = elim (ℕ_discrete k max_retries) [
    | yes last ↦ (
      k,
      record { within = le; earlier = h; final = inl last },
      round_stops max_retries rounds k (inl last),
    )
    | no more ↦ elim (Bool-cases (wants_retry (outcomes k))) [
      | inr done ↦ (
        k,
        record { within = le; earlier = h; final = inr done },
        round_stops max_retries rounds k (inr done),
      )
      | inl again ↦ rw (round_again max_retries rounds k again more) (
          runs_from max_retries rounds (suc k) (omega arith) (omega arith) (λ j lt.
            elim (ℕ_discrete j k) [ yes same ↦ rw same again | no other ↦ h j (omega arith) ]))
    ]
  ]

  -- The loop stops at an attempt that is the last one allowed or wants no retry, after attempts
  -- that all wanted one. It settles to the outcome of that attempt, has called `fn` once for each
  -- attempt and `onRetry` once for each retry, with the retry's number and the error before it.
  pub execute_with_retry-stops :
      (max_retries : ℕ)
      → (s : ℕ) × IsStop max_retries s
        × (execute_with_retry scripted should_retry note max_retries fresh
            ≡ (outcomes s, record { calls = s + 1; notices = reports s }))
  unfolding execute_with_retry
  execute_with_retry-stops max_retries = rw add-one (
      runs_from max_retries (suc max_retries) 0 (omega arith) (omega arith)
        (λ j lt. absurd (omega arith)))
