-- ===== src/RateLimiter/Hits.antt =====
-- One run of the script: what it replies, and what it leaves of the set.
use ts_api_gateway.Common.{
  ltb, ltb→lt, Bool-cases, length, keep, tally, All, All-keep, ℕ, ◌-◌, ◌≤◌, ◌<◌, ◌≡◌, ap, ◌∙◌, ◌⊎◌,
  inl, inr, true, false, not, List, [], ◌∷◌, ◌++◌, arith, Text, text_eq,
}
use ts_api_gateway.RateLimiter.{hit_member, sliding_window}
use ts_api_gateway.RateLimiter.Redis.{sub_ℕ, above, Commands}
use ts_api_gateway.RateLimiter.Trimming.{in_window, length-trimmed, keep_absent}

-- A hit: the clock's reading and the random number.
abbrev pub Hit : Type 0
Hit = ℕ × ℕ

module _ (redis : Commands) (decimal : ℕ → Text) (key : Text) (w limit : ℕ) where
  open redis use {
    Db, entries, entries-zremrangebyscore, zcard-entries, entries-zadd, entries-pexpire, time,
    deadline, reach_time,
  }

  abbrev pub reply_to : Hit → Db → ℕ × ℕ
  reply_to h db = (sliding_window redis decimal key h.0 w limit h.1 db).0

  abbrev pub after_hit : Hit → Db → Db
  after_hit h db = (sliding_window redis decimal key h.0 w limit h.1 db).1

  -- The database as a hit finds it: Redis's clock and the gateway's agree.
  abbrev pub at_hit : Hit → Db → Db
  at_hit h db = reach_time h.0 db

  abbrev pub trimmed : Hit → Db → List (ℕ × Text)
  trimmed h db = keep (λ e. above (sub_ℕ h.0 w) e.0) (entries db key)

  -- The count that the script compares with the limit.
  count-eq :
      (h : Hit) (db : Db)
      → All (λ e. e.0 ≤ h.0) (entries db key)
      → redis.zcard key (redis.zremrangebyscore key (sub_ℕ h.0 w) db)
        ≡ tally (λ e. in_window w h.0 e.0) (entries db key)
  count-eq h db past =
      zcard-entries key (redis.zremrangebyscore key (sub_ℕ h.0 w) db)
      ∙ ap length (entries-zremrangebyscore key (sub_ℕ h.0 w) db)
      ∙ length-trimmed w h.0 (entries db key) past

  abbrev pub cut : Hit → Db → Db
  cut h db = redis.zremrangebyscore key (sub_ℕ h.0 w) db

  abbrev pub added : Hit → Db → Db
  added h db = redis.pexpire key w (redis.zadd key h.0 (hit_member decimal h.0 h.1) (cut h db))

  pub with_room :
      (h : Hit) (db : Db)
      → ltb (redis.zcard key (cut h db)) limit ≡ true
      → sliding_window redis decimal key h.0 w limit h.1 db
        ≡ ((1, limit - redis.zcard key (cut h db) - 1), added h db)
  unfolding sliding_window
  with_room h db room = ground (arith, room)

  pub without_room :
      (h : Hit) (db : Db)
      → ltb (redis.zcard key (cut h db)) limit ≡ false
      → sliding_window redis decimal key h.0 w limit h.1 db ≡ ((0, 0), cut h db)
  unfolding sliding_window
  without_room h db full = ground (arith, full)

  pub entries-added :
      (h : Hit) (db : Db)
      → 0 < w
      → All (λ e. text_eq e.1 (hit_member decimal h.0 h.1) ≡ false) (entries db key)
      → entries (added h db) key ≡ trimmed h db ++ ((h.0, hit_member decimal h.0 h.1) ∷ [])
  entries-added h db lasting absent =
      let m = hit_member decimal h.0 h.1 in
      entries-pexpire key w (redis.zadd key h.0 m (cut h db)) lasting
      ∙ entries-zadd key h.0 m (cut h db)
      ∙ ap (λ es. es ++ ((h.0, m) ∷ []))
          (ap (keep (λ x. not (text_eq x.1 m))) (entries-zremrangebyscore key (sub_ℕ h.0 w) db)
            ∙ keep_absent m (keep (λ x. above (sub_ℕ h.0 w) x.0) (entries db key)) (
                All-keep (λ x. text_eq x.1 m ≡ false) (λ x. above (sub_ℕ h.0 w) x.0)
                  (entries db key) absent))

  -- A hit is let in exactly when fewer than `limit` entries lie in the window that ends with it;
  -- the set is trimmed, and the hit added if it is let in.
  pub hit_cases :
      (h : Hit) (db : Db)
      → 0 < w
      → All (λ e. e.0 ≤ h.0) (entries db key)
      → All (λ e. text_eq e.1 (hit_member decimal h.0 h.1) ≡ false) (entries db key)
      → ((reply_to h db ≡ (1, limit - tally (λ e. in_window w h.0 e.0) (entries db key) - 1))
          × (tally (λ e. in_window w h.0 e.0) (entries db key) < limit)
          × (entries (after_hit h db) key
              ≡ trimmed h db ++ ((h.0, hit_member decimal h.0 h.1) ∷ [])))
        ⊎ ((reply_to h db ≡ (0, 0))
            × (limit ≤ tally (λ e. in_window w h.0 e.0) (entries db key))
            × (entries (after_hit h db) key ≡ trimmed h db))
  hit_cases h db lasting past absent =
      let e = count-eq h db past in
      elim (Bool-cases (ltb (redis.zcard key (cut h db)) limit)) [
        | inl room ↦
            let run = with_room h db room in
            inl (
              ap (λ r. r.0) run ∙ ap (λ n. (1, limit - n - 1)) e,
              rw (← e) (ltb→lt _ _ room),
              ap (λ r. entries r.1 key) run ∙ entries-added h db lasting absent,
            )
        | inr full ↦
            let run = without_room h db full in
            inr (
              ap (λ r. r.0) run,
              rw (← e) (ground arith),
              ap (λ r. entries r.1 key) run ∙ entries-zremrangebyscore key (sub_ℕ h.0 w) db,
            )
      ]
