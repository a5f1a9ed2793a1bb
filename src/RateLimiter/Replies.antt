-- ===== src/RateLimiter/Replies.antt =====
-- What `checkRateLimit` answers, and whom its keys keep apart.
use mathlib.Core.List.{append_cancel_left}
use ts_api_gateway.Common.{
  ltb, tally, All, ℕ, ◌+◌, ◌-◌, ◌≤◌, ◌≡◌, refl, sym, ap, ◌∙◌, ◌≢◌, inl, inr, true, false, List,
  ◌++◌, arith, Text, codes, text_eq, before, behind, has, decimal,
}
use ts_api_gateway.Common.StringLaws.{before-append, behind-append}
use ts_api_gateway.RateLimiter.{
  hit_member, window_ms, rate_key, Link, up, down, reply_lost, of_reply, check_rate_limit,
}
use ts_api_gateway.RateLimiter.Hits.{hit_cases}
use ts_api_gateway.RateLimiter.Redis.{Commands}
use ts_api_gateway.RateLimiter.Trimming.{in_window}

-- How many of a set's entries lie in the window of one second that ends at `now`.
abbrev pub recent : ℕ → List (ℕ × Text) → ℕ
recent now es = tally (λ e. in_window window_ms now e.0) es

-- With Redis answering, a set that holds no later hits and a member that is not in it: the request
-- is allowed exactly when fewer than `burst` hits lie in the last second, and `remaining` is what is
-- then left of `burst`.
pub check_rate_limit-recent :
    (redis : Commands) (decimal : ℕ → Text) (now random : ℕ) (route_name client_id : Text)
    (rps burst : ℕ) (db : redis.Db)
    → All (λ e. e.0 ≤ now) (redis.entries db (rate_key route_name client_id))
    → All
        (λ e. text_eq e.1 (hit_member decimal now random) ≡ false)
        (redis.entries db (rate_key route_name client_id))
    → (check_rate_limit redis decimal up now random route_name client_id rps burst db).0 ≡ record {
      allowed = ltb (recent now (redis.entries db (rate_key route_name client_id))) burst;
      remaining = burst - recent now (redis.entries db (rate_key route_name client_id)) - 1;
      reset_at_ms = now + 1000;
      limit = burst;
    }
unfolding check_rate_limit
check_rate_limit-recent redis decimal now random route_name client_id rps burst db past absent =
    let key = rate_key route_name client_id in
    elim (hit_cases redis decimal key window_ms burst (now, random) db (omega arith) past absent) [
      | inl (e, room, _) ↦ ap (of_reply now burst) e ∙ ground (arith, room)
      | inr (e, full, _) ↦ ap (of_reply now burst) e ∙ ground (arith, full)
    ]

-- Whatever the set holds, an error of Redis lets the request through with the whole limit left.
pub check_rate_limit-fails_open :
    (redis : Commands) (decimal : ℕ → Text) (link : Link) (now random : ℕ)
    (route_name client_id : Text) (rps burst : ℕ) (db : redis.Db)
    → link ≢ up
    → ((check_rate_limit redis decimal link now random route_name client_id rps burst db).0.allowed
        ≡ true)
      × ((check_rate_limit redis decimal link now random route_name client_id rps burst
            db).0.remaining
          ≡ burst)
unfolding check_rate_limit
check_rate_limit-fails_open redis decimal up now random r c rps burst db h = absurd (h refl)
check_rate_limit-fails_open redis decimal down now random r c rps burst db h = (refl, refl)
check_rate_limit-fails_open redis decimal reply_lost now random r c rps burst db h = (refl, refl)

-- Two hits share a set only if route and client are the same, for route names without a colon, as
-- the admin API demands them.
pub rate_key-injective :
    (r r' c c' : Text)
    → has b':' r ≡ false
    → has b':' r' ≡ false
    → rate_key r c ≡ rate_key r' c'
    → (r ≡ r') × (c ≡ c')
unfolding rate_key
rate_key-injective r r' c c' h h' e =
    let tail =
      append_cancel_left (codes "rl:") (r ++ (codes ":" ++ c)) (r' ++ (codes ":" ++ c')) e in
    (
      sym (before-append b':' r c h) ∙ ap (before b':') tail ∙ before-append b':' r' c' h',
      sym (behind-append b':' r c h) ∙ ap (behind b':') tail ∙ behind-append b':' r' c' h',
    )
