-- ===== src/RateLimiter/Tests.antt =====
-- A store of sorted sets in memory, runs of the limiter on it, and the theorems at these inputs.
use ts_api_gateway.Common.{
  if◌then◌else◌, length, keep, tally, ℕ, ◌+◌, ◌≤◌, ◌≡◌, refl, inl, true, not, Option, none, some,
  List, [], ◌∷◌, ◌++◌, arith, Text, codes, text_eq, text_eq_refl,
}
use ts_api_gateway.Proxy.Retry.{member}
use ts_api_gateway.RateLimiter.{up, down, sliding_window, check_rate_limit}
use ts_api_gateway.RateLimiter.Redis.{ℤ, above, is_over, Commands}
use ts_api_gateway.RateLimiter.Replies.{check_rate_limit-recent, check_rate_limit-fails_open}
use ts_api_gateway.RateLimiter.Trimming.{in_window}
use ts_api_gateway.RateLimiter.Window.{admitted, admitted-le-limit}

-- The sets, the deadlines of their keys, and the clock.
record Memory : Type 0 where
  sets : Text → List (ℕ × Text)
  ends : Text → Option ℕ
  clock : ℕ

abbrev write {ℓ} : {A : Type ℓ} → Text → A → (Text → A) → Text → A
write key a f k = if text_eq key k then a else f k

write_self {ℓ} : {A : Type ℓ} (key : Text) (a : A) (f : Text → A) → write key a f key ≡ a
write_self key a f = rw (text_eq_refl key)

abbrev trim : Text → ℤ → Memory → List (ℕ × Text)
trim key hi db = keep (λ e. above hi e.0) (db.sets key)

abbrev add : Text → ℕ → Text → Memory → List (ℕ × Text)
add key score member db =
    keep (λ e. not (text_eq e.1 member)) (db.sets key) ++ ((score, member) ∷ [])

abbrev in_memory : Commands
in_memory = record {
  Db = Memory;
  entries = λ db. db.sets;
  time = λ db. db.clock;
  deadline = λ db. db.ends;
  reach_time =
      λ t db. record db { sets = λ k. if is_over (db.ends k) t then [] else db.sets k; clock = t };
  zremrangebyscore = λ key hi db. record db { sets = write key (trim key hi db) db.sets };
  zcard = λ key db. length (db.sets key);
  zadd = λ key score member db. record db { sets = write key (add key score member db) db.sets };
  pexpire = λ key ms db. record db { ends = write key (some (db.clock + ms)) db.ends };
  entries-zremrangebyscore = λ key hi db. write_self key (trim key hi db) db.sets;
  zcard-entries = λ key db. refl;
  entries-zadd = λ key score member db. write_self key (add key score member db) db.sets;
  time-reach_time = λ t db. refl;
  entries-reach_time = λ key t db. refl;
  deadline-reach_time = λ key t db. inl refl;
  time-zremrangebyscore = λ key hi db. refl;
  deadline-zremrangebyscore = λ key hi db. inl refl;
  time-zadd = λ key score member db. refl;
  entries-pexpire = λ key ms db lasting. refl;
  deadline-pexpire = λ key ms db lasting. inl (write_self key (some (db.clock + ms)) db.ends);
}

-- Numbers as texts of one character, which is enough for the runs below.
abbrev one_char : ℕ → Text
one_char n = n ∷ []

abbrev no_sets : Memory
no_sets = record { sets = λ k. []; ends = λ k. none; clock = 0 }

abbrev key : Text
key = codes "rl:r:c"

-- Two of three hits within a second, and a third one later.
abbrev hits : List (ℕ × ℕ)
hits = (5000, 1) ∷ (5200, 2) ∷ (5900, 3) ∷ (6100, 4) ∷ []

let_in : admitted in_memory one_char key 1000 2 hits no_sets ≡ 5000 ∷ 5200 ∷ 6100 ∷ []
unfolding sliding_window text_eq
let_in = refl

admitted-le-limit_example :
    tally (in_window 1000 6150) (admitted in_memory one_char key 1000 2 hits no_sets) ≤ 2
unfolding sliding_window text_eq
admitted-le-limit_example =
    admitted-le-limit in_memory one_char key 1000 2 hits no_sets (omega arith) refl (omega arith)
      (tt, ((refl, tt), ((refl, (refl, tt)), ((refl, (refl, tt)), tt)))) 6150

check_rate_limit-recent_example :
    (check_rate_limit in_memory one_char up 5000 1 (codes "r") (codes "c") 1 2 no_sets).0
    ≡ record { allowed = true; remaining = 1; reset_at_ms = 6000; limit = 2 }
check_rate_limit-recent_example =
    check_rate_limit-recent in_memory one_char 5000 1 (codes "r") (codes "c") 1 2 no_sets tt tt

check_rate_limit-fails_open_example :
    ((check_rate_limit in_memory one_char down 5000 1 (codes "r") (codes "c") 1 2 no_sets).0.allowed
      ≡ true)
    × ((check_rate_limit in_memory one_char down 5000 1
          (codes "r")
          (codes "c")
          1
          2
          no_sets).0.remaining
        ≡ 2)
check_rate_limit-fails_open_example =
    check_rate_limit-fails_open in_memory one_char down 5000 1 (codes "r") (codes "c") 1 2 no_sets
      (λ e. cc e)
