-- ===== src/RateLimiter/Window.antt =====
-- The window bound: however hits arrive, no window of the given length lets more than `limit` in.
use mathlib.Core.Path.{subst}
use native.Mathlib.Decide.{dec_le}
use ts_api_gateway.Common.{
  ltb, ◌==◌, if◌then◌else◌, Bool-cases, tally, tally-append, All, All-append, All-weaken, All-keep,
  ℕ, ◌+◌, ◌≤◌, ◌<◌, ◌≡◌, refl, sym, ap, ◌∙◌, inl, inr, false, some, List, [], ◌∷◌, ◌++◌, arith,
  Text, text_eq,
}
use ts_api_gateway.RateLimiter.{hit_member}
use ts_api_gateway.RateLimiter.Hits.{
  Hit, reply_to, after_hit, at_hit, trimmed, cut, added, with_room, without_room, entries-added,
  hit_cases,
}
use ts_api_gateway.RateLimiter.Redis.{sub_ℕ, above, Commands}
use ts_api_gateway.RateLimiter.Trimming.{
  in_window, tally-trimmed, tally-le-now, expired_counts, deadline-cases,
}

module _ (redis : Commands) (decimal : ℕ → Text) (key : Text) (w limit : ℕ) where
  open redis use {
    Db, entries, entries-zremrangebyscore, zcard-entries, entries-zadd, entries-pexpire, time,
    deadline, reach_time,
  }

  -- The times of the hits that are let in.
  abbrev pub admitted : List Hit → Db → List ℕ
  admitted [] db = []
  admitted (h ∷ hs) db =
      let left = after_hit redis decimal key w limit h (at_hit redis decimal key w limit h db) in
      if (reply_to redis decimal key w limit h (at_hit redis decimal key w limit h db)).0 == 1
      then h.0 ∷ admitted hs left
      else admitted hs left

  -- The hits come in the order of their clocks, from `last` on.
  abbrev pub InOrder : ℕ → List Hit → Type 0
  InOrder last [] = Unit
  InOrder last (h ∷ hs) = (last ≤ h.0) × InOrder h.0 hs

  -- No hit meets its own member in the set: the random numbers of one millisecond differ.
  abbrev pub Fresh : List Hit → Db → Type 0
  Fresh [] db = Unit
  Fresh (h ∷ hs) db =
      All (λ e. text_eq e.1 (hit_member decimal h.0 h.1) ≡ false)
        (entries (at_hit redis decimal key w limit h db) key)
      × Fresh hs (after_hit redis decimal key w limit h (at_hit redis decimal key w limit h db))

  -- The set does not expire while a hit in it counts.
  abbrev Expires : Db → Type 0
  Expires db = (d : ℕ) → deadline db key ≡ some d → All (λ e. e.0 + w ≤ d) (entries db key)

  -- The set against the times let in so far: no hit lies behind `last`, and windows that end at
  -- `last` or later see the same in both.
  record Agrees (last : ℕ) (past : List ℕ) (db : Db) : Type 0 where
    set_past : All (λ e. e.0 ≤ last) (entries db key)
    all_past : All (λ a. a ≤ last) past
    same :
        (t : ℕ)
        → last ≤ t
        → tally (λ e. in_window w t e.0) (entries db key) ≡ tally (in_window w t) past
    bounded : (t : ℕ) → tally (in_window w t) past ≤ limit
    expires : Expires db

  All-later :
      {last now : ℕ} (es : List (ℕ × Text))
      → last ≤ now
      → All (λ e. e.0 ≤ last) es
      → All (λ e. e.0 ≤ now) es
  All-later {last} {now} es le =
      All-weaken (λ e. e.0 ≤ last) (λ e. e.0 ≤ now) es (λ e h. omega arith)

  trimmed_past :
      (h : Hit) (db : Db) {last : ℕ}
      → last ≤ h.0
      → All (λ e. e.0 ≤ last) (entries db key)
      → All (λ e. e.0 ≤ h.0) (trimmed redis decimal key w limit h db)
  trimmed_past h db le past =
      All-keep (λ e. e.0 ≤ h.0) (λ e. above (sub_ℕ h.0 w) e.0) (entries db key)
        (All-later (entries db key) le past)

  added-Expires :
      (h : Hit) (db : Db)
      → 0 < w
      → time db ≡ h.0
      → All (λ e. e.0 ≤ h.0) (entries db key)
      → All (λ e. text_eq e.1 (hit_member decimal h.0 h.1) ≡ false) (entries db key)
      → Expires (added redis decimal key w limit h db)
  added-Expires h db lasting clock past absent d e =
      let m = hit_member decimal h.0 h.1 in
      let es = trimmed redis decimal key w limit h db ++ ((h.0, m) ∷ []) in
      let held = entries-added redis decimal key w limit h db lasting absent in
      let all_past =
        All-append (λ x. x.0 ≤ h.0) (trimmed redis decimal key w limit h db) ((h.0, m) ∷ [])
          (trimmed_past h db (omega arith) past) (omega arith, tt) in
      let clock_now =
        redis.time-zadd key h.0 m (cut redis decimal key w limit h db)
        ∙ redis.time-zremrangebyscore key (sub_ℕ h.0 w) db
        ∙ clock in
      elim (redis.deadline-pexpire key w (redis.zadd key h.0 m (cut redis decimal key w limit h db))
        lasting) [
          | inl set_to ↦
              let ends : redis.time (redis.zadd key h.0 m (cut redis decimal key w limit h db)) + w
                  ≡ d =
                cc (set_to, e) in
              rw held (
                All-weaken (λ x. x.0 ≤ h.0) (λ x. x.0 + w ≤ d) es
                  (λ x p. omega (arith, p, ends, clock_now)) all_past)
          | inr gone ↦
              rw
                (entries-pexpire key w (redis.zadd key h.0 m (cut redis decimal key w limit h db))
                    lasting
                  ∙ gone)
                tt
        ]

  cut-Expires : (h : Hit) (db : Db) → Expires db → Expires (cut redis decimal key w limit h db)
  cut-Expires h db ex d e = elim (redis.deadline-zremrangebyscore key (sub_ℕ h.0 w) db) [
    | inl same ↦ rw (entries-zremrangebyscore key (sub_ℕ h.0 w) db) (
        All-keep (λ x. x.0 + w ≤ d) (λ x. above (sub_ℕ h.0 w) x.0) (entries db key)
          (ex d (sym same ∙ e)))
    | inr gone ↦ rw gone tt
  ]

  -- After a hit the set lives on for as long as its hits count.
  after_hit-Expires :
      (h : Hit) (db : Db)
      → 0 < w
      → time db ≡ h.0
      → All (λ e. e.0 ≤ h.0) (entries db key)
      → All (λ e. text_eq e.1 (hit_member decimal h.0 h.1) ≡ false) (entries db key)
      → Expires db
      → Expires (after_hit redis decimal key w limit h db)
  after_hit-Expires h db lasting clock past absent ex =
      elim (Bool-cases (ltb (redis.zcard key (cut redis decimal key w limit h db)) limit)) [
        | inl room ↦
            subst Expires (sym (ap (λ r. r.1) (with_room redis decimal key w limit h db room)))
              (added-Expires h db lasting clock past absent)
        | inr full ↦
            subst Expires (sym (ap (λ r. r.1) (without_room redis decimal key w limit h db full)))
              (cut-Expires h db ex)
      ]

  rejected-Agrees :
      (h : Hit) (db : Db) {last : ℕ} {past : List ℕ}
      → last ≤ h.0
      → Agrees last past db
      → Expires (after_hit redis decimal key w limit h db)
      → entries (after_hit redis decimal key w limit h db) key
        ≡ trimmed redis decimal key w limit h db
      → Agrees h.0 past (after_hit redis decimal key w limit h db)
  rejected-Agrees h db {last} {past} le a ex e = record {
    set_past = rw e (trimmed_past h db le a.set_past);
    all_past = All-weaken (λ x. x ≤ last) (λ x. x ≤ h.0) past (λ x p. omega arith) a.all_past;
    same = λ t lt.
        ap (tally (λ x. in_window w t x.0)) e
        ∙ tally-trimmed w h.0 t (entries db key) lt
        ∙ a.same t (omega arith);
    bounded = a.bounded;
    expires = ex;
  }

  admitted_bound :
      (h : Hit) (db : Db) {last : ℕ} {past : List ℕ} (t : ℕ)
      → last ≤ h.0
      → Agrees last past db
      → tally (λ e. in_window w h.0 e.0) (entries db key) < limit
      → tally (in_window w t) (h.0 ∷ past) ≤ limit
  admitted_bound h db {last} {past} t le a room = elim (dec_le h.0 t) [
    | yes after_it ↦ ground (
      arith,
      a.same h.0 le,
      tally-le-now w h.0 t past
          (All-weaken (λ x. x ≤ last) (λ x. x ≤ h.0) past (λ x p. omega arith) a.all_past) after_it,
    )
    | no earlier ↦ ground (arith, a.bounded t)
  ]

  admitted-Agrees :
      (h : Hit) (db : Db) {last : ℕ} {past : List ℕ}
      → last ≤ h.0
      → Agrees last past db
      → tally (λ e. in_window w h.0 e.0) (entries db key) < limit
      → Expires (after_hit redis decimal key w limit h db)
      → entries (after_hit redis decimal key w limit h db) key
        ≡ trimmed redis decimal key w limit h db ++ ((h.0, hit_member decimal h.0 h.1) ∷ [])
      → Agrees h.0 (h.0 ∷ past) (after_hit redis decimal key w limit h db)
  admitted-Agrees h db {last} {past} le a room ex e = record {
    set_past = rw e (
        All-append (λ x. x.0 ≤ h.0) (trimmed redis decimal key w limit h db)
          ((h.0, hit_member decimal h.0 h.1) ∷ []) (trimmed_past h db le a.set_past)
          (omega arith, tt));
    all_past = (
      omega arith,
      All-weaken (λ x. x ≤ last) (λ x. x ≤ h.0) past (λ x p. omega arith) a.all_past,
    );
    same = λ t lt.
        ap (tally (λ x. in_window w t x.0)) e
        ∙ tally-append (λ x. in_window w t x.0) (trimmed redis decimal key w limit h db)
            ((h.0, hit_member decimal h.0 h.1) ∷ [])
        ∙ omega (arith, a.same t (omega arith), tally-trimmed w h.0 t (entries db key) lt);
    bounded = λ t. admitted_bound h db t le a room;
    expires = ex;
  }

  -- Time that passes hides nothing from the windows to come.
  at_hit-Agrees :
      (h : Hit) (db : Db) {last : ℕ} {past : List ℕ}
      → last ≤ h.0
      → Agrees last past db
      → Agrees h.0 past (at_hit redis decimal key w limit h db)
  at_hit-Agrees h db {last} {past} le a =
      let found = redis.entries-reach_time key h.0 db in
      let older = All-weaken (λ x. x ≤ last) (λ x. x ≤ h.0) past (λ x p. omega arith) a.all_past in
      elim (deadline-cases h.0 (deadline db key)) [
        | inl live ↦
            let kept : entries (at_hit redis decimal key w limit h db) key ≡ entries db key =
              found ∙ rw live refl in
            record {
              set_past = rw kept (All-later (entries db key) le a.set_past);
              all_past = older;
              same = λ t lt. ap (tally (λ x. in_window w t x.0)) kept ∙ a.same t (omega arith);
              bounded = a.bounded;
              expires = λ d e. elim (redis.deadline-reach_time key h.0 db) [
                | inl same ↦ rw kept (a.expires d (sym same ∙ e))
                | inr gone ↦ rw gone tt
              ];
            }
        | inr (d, when, over, gone_by) ↦
            let gone : entries (at_hit redis decimal key w limit h db) key ≡ [] =
              found ∙ rw gone_by refl in
            record {
              set_past = rw gone tt;
              all_past = older;
              same = λ t lt.
                  ap (tally (λ x. in_window w t x.0)) gone
                  ∙ sym (expired_counts w t d (entries db key) (omega arith) (a.expires d when))
                  ∙ a.same t (omega arith);
              bounded = a.bounded;
              expires = λ d' e. rw gone tt;
            }
      ]

  admitted_from :
      (hs : List Hit) (db : Db) {last : ℕ} {past : List ℕ}
      → 0 < w
      → Agrees last past db
      → InOrder last hs
      → Fresh hs db
      → (t : ℕ) → tally (in_window w t) (admitted hs db) + tally (in_window w t) past ≤ limit
  admitted_from [] db lasting a order fr t = omega (arith, a.bounded t)
  admitted_from (h ∷ hs) db lasting a order fr t =
      let db1 = at_hit redis decimal key w limit h db in
      let a1 = at_hit-Agrees h db order.0 a in
      let ex =
        after_hit-Expires h db1 lasting (redis.time-reach_time h.0 db) a1.set_past fr.0
          a1.expires in
      elim (hit_cases redis decimal key w limit h db1 lasting a1.set_past fr.0) [
        | inl (replied, room, e) ↦
            let rest =
              admitted_from hs (after_hit redis decimal key w limit h db1) lasting
                (admitted-Agrees h db1 (omega arith) a1 room ex e) order.1 fr.1 t in
            rw (ap (λ r. r.0 == 1) replied) (omega (arith, rest))
        | inr (replied, full, e) ↦ rw (ap (λ r. r.0 == 1) replied) (
            admitted_from hs (after_hit redis decimal key w limit h db1) lasting
              (rejected-Agrees h db1 (omega arith) a1 ex e) order.1 fr.1 t)
      ]

  -- From an empty set, for hits in the order of their clocks whose members do not repeat in the set,
  -- with the clock of Redis agreeing with the gateway's, and commands that obey the laws of sorted
  -- sets and of deadlines: of the hits let in, at most `limit` lie in any one window of the positive length `w`.
  pub admitted-le-limit :
      (hs : List Hit) (db : Db)
      → 0 < w
      → entries db key ≡ []
      → InOrder 0 hs
      → Fresh hs db
      → (t : ℕ) → tally (in_window w t) (admitted hs db) ≤ limit
  admitted-le-limit hs db lasting empty order fr t =
      let start : Agrees 0 [] db = record {
        set_past = rw empty tt;
        all_past = tt;
        same = λ t le. ap (tally (λ x. in_window w t x.0)) empty;
        bounded = λ t. omega arith;
        expires = λ d e. rw empty tt;
      } in
      omega (arith, admitted_from hs db lasting start order fr t)
