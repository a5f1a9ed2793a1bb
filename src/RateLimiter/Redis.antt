-- ===== src/RateLimiter/Redis.antt =====
-- What the Lua script uses of Redis's sorted sets, as documented there. `entries` is what a set
-- holds: scores and members, in the order of their last addition. A key may have a deadline on the
-- clock of Redis, after which it is gone.
use ts_api_gateway.Common.{
  ltb, leb, if◌then◌else◌, length, keep, ℕ, ◌+◌, ◌-◌, ◌<◌, ◌≡◌, ◌⊎◌, Bool, true, false, not, Option,
  none, some, List, [], ◌∷◌, ◌++◌, Text, text_eq,
}

-- Integers, for the bound of a range; `negsuc n` is -(n + 1).
pub data ℤ : Type 0 where
  pos : ℕ → ℤ
  negsuc : ℕ → ℤ

abbrev pub sub_ℕ : ℕ → ℕ → ℤ
sub_ℕ a b = if leb b a then pos (a - b) else negsuc (b - a - 1)

-- Whether a score lies above the bound.
abbrev pub above : ℤ → ℕ → Bool
above (pos hi) score = ltb hi score
above (negsuc n) score = true

-- Whether a deadline is over.
abbrev pub is_over : Option ℕ → ℕ → Bool
is_over none t = false
is_over (some d) t = leb d t

pub record Commands : Type 1 where
  pub Db : Type 0
  pub entries : Db → Text → List (ℕ × Text)
  pub time : Db → ℕ
  pub deadline : Db → Text → Option ℕ
  -- The clock of Redis reaches a time.
  pub reach_time : ℕ → Db → Db
  -- ZREMRANGEBYSCORE key -inf hi
  pub zremrangebyscore : Text → ℤ → Db → Db
  -- ZCARD key
  pub zcard : Text → Db → ℕ
  -- ZADD key score member
  pub zadd : Text → ℕ → Text → Db → Db
  -- PEXPIRE key ms
  pub pexpire : Text → ℕ → Db → Db
  pub entries-zremrangebyscore :
      (key : Text) (hi : ℤ) (db : Db)
      → entries (zremrangebyscore key hi db) key ≡ keep (λ e. above hi e.0) (entries db key)
  pub zcard-entries : (key : Text) (db : Db) → zcard key db ≡ length (entries db key)
  -- A member that is there already only has its score changed.
  pub entries-zadd :
      (key : Text) (score : ℕ) (member : Text) (db : Db)
      → entries (zadd key score member db) key
        ≡ keep (λ e. not (text_eq e.1 member)) (entries db key) ++ ((score, member) ∷ [])
  -- A key whose deadline is over is deleted.
  pub time-reach_time : (t : ℕ) (db : Db) → time (reach_time t db) ≡ t
  pub entries-reach_time :
      (key : Text) (t : ℕ) (db : Db)
      → entries (reach_time t db) key ≡ (if is_over (deadline db key) t then [] else entries db key)
  pub deadline-reach_time :
      (key : Text) (t : ℕ) (db : Db)
      → (deadline (reach_time t db) key ≡ deadline db key) ⊎ (entries (reach_time t db) key ≡ [])
  -- A set that loses its last member is deleted with its deadline; else the deadline stays.
  pub time-zremrangebyscore :
      (key : Text) (hi : ℤ) (db : Db) → time (zremrangebyscore key hi db) ≡ time db
  pub deadline-zremrangebyscore :
      (key : Text) (hi : ℤ) (db : Db)
      → (deadline (zremrangebyscore key hi db) key ≡ deadline db key)
        ⊎ (entries (zremrangebyscore key hi db) key ≡ [])
  pub time-zadd :
      (key : Text) (score : ℕ) (member : Text) (db : Db) → time (zadd key score member db) ≡ time db
  -- A positive time to live sets the deadline of a key that exists, and leaves the set.
  pub entries-pexpire :
      (key : Text) (ms : ℕ) (db : Db) → 0 < ms → entries (pexpire key ms db) key ≡ entries db key
  pub deadline-pexpire :
      (key : Text) (ms : ℕ) (db : Db)
      → 0 < ms
      → (deadline (pexpire key ms db) key ≡ some (time db + ms)) ⊎ (entries db key ≡ [])
