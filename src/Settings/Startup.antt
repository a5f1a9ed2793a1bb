-- ===== src/Settings/Startup.antt =====
-- What a process that has started may rely on: src/config/env.ts with the key of the admin API.
use mathlib.Core.Path.{subst}
use ts_api_gateway.Admin.{Stamp, AdminRequest, Validation, admin}
use ts_api_gateway.Admin.Publishing.{shut_out_status, admin-unauthorized}
use ts_api_gateway.Common.{
  ◌>>=◌, length, ℕ, ◌≤◌, ◌<◌, ◌≡◌, refl, ap, Bool, Option, none, some, arith, Text, codes, lookup,
  Dict,
}
use ts_api_gateway.Proxy.{HeaderValue, one}
use ts_api_gateway.Settings.{
  ParsedEnv, at_least, server_vars, store_vars, auth_vars, limit_vars, tuning_vars, parse_env,
}
use ts_api_gateway.Storage.{Tables}

-- An environment that was parsed has this key.
abbrev HasKey : Option Text → Option ParsedEnv → Type 0
HasKey key none = Unit {0}
HasKey key (some env) = key ≡ some env.admin_api_key

HasKey-bind {ℓ} :
    {A : Type ℓ} (key : Option Text) (m : Option A) (f : A → Option ParsedEnv)
    → ((a : A) → m ≡ some a → HasKey key (f a))
    → HasKey key (m >>= f)
HasKey-bind key none f h = tt
HasKey-bind key (some a) f h = h a refl

at_least_long : (n : ℕ) (v : Option Text) (s : Text) → at_least n v ≡ some s → n ≤ length s
unfolding at_least
at_least_long n none s e = absurd (cc e)
at_least_long n (some v) s e = ground (arith, e)

module _ (is_url : Text → Bool) (to_number : Text → Option ℕ) where
  parse_env-HasKey :
      (vars : Dict Text)
      → HasKey (at_least 16 (lookup (codes "ADMIN_API_KEY") vars)) (parse_env is_url to_number vars)
  unfolding parse_env
  parse_env-HasKey vars = HasKey-bind _ (server_vars is_url to_number vars) _ (λ server _.
      HasKey-bind _ (store_vars is_url to_number vars) _ (λ stores _.
        HasKey-bind _ (auth_vars is_url to_number vars) _ (λ auth _.
          HasKey-bind _ (limit_vars is_url to_number vars) _ (λ limits _.
            HasKey-bind _ (at_least 16 (lookup (codes "ADMIN_API_KEY") vars)) _ (λ key has_key.
              HasKey-bind _ (tuning_vars is_url to_number vars) _ (λ tuning _. has_key))))))

  parse_env-key :
      (vars : Dict Text) (env : ParsedEnv)
      → parse_env is_url to_number vars ≡ some env
      → at_least 16 (lookup (codes "ADMIN_API_KEY") vars) ≡ some env.admin_api_key
  parse_env-key vars env e =
      subst (HasKey (at_least 16 (lookup (codes "ADMIN_API_KEY") vars))) e (parse_env-HasKey vars)

  -- A process that has started on an environment answers every admin request whose header x-api-key
  -- is one value of fewer than 16 characters with 401, or with 400 if Fastify's validator refuses it,
  -- and leaves the tables alone.
  pub parse_env-short_keys :
      (vars : Dict Text) (env : ParsedEnv) (validate : Validation) (headers : Dict HeaderValue)
      (key : Text) (stamp : Stamp) (request : AdminRequest) (tables : Tables)
      → parse_env is_url to_number vars ≡ some env
      → lookup (codes "x-api-key") headers ≡ some (one key)
      → length key < 16
      → let result = admin validate env.admin_api_key headers stamp request tables in
        (result.0.status_code ≡ shut_out_status (validate request)) × (result.1 ≡ tables)
  parse_env-short_keys vars env validate headers key stamp request tables started sent short =
      let long =
        at_least_long 16 (lookup (codes "ADMIN_API_KEY") vars) env.admin_api_key
          (parse_env-key vars env started) in
      admin-unauthorized validate env.admin_api_key headers stamp request tables (λ same.
        let equal : key ≡ env.admin_api_key = cc (sent, same) in
        omega (arith, short, long, ap length equal))
