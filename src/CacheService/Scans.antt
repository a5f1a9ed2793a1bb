-- ===== src/CacheService/Scans.antt =====
-- What Redis documents of SCAN and DEL, for the loop of invalidateRoute.
use ts_api_gateway.CacheService.{CacheClient, cursor_zero}
use ts_api_gateway.Common.{
  if◌then◌else◌, ℕ, ◌<◌, ◌≡◌, ◌⊎◌, Bool, true, false, Option, none, some, List, ◌++◌, Text, codes,
  text_eq, starts_with,
}
use ts_api_gateway.Proxy.{resolved}
use ts_api_gateway.Proxy.Retry.{member}

-- A Redis that answers, for one pattern and its prefix, as the commands are documented. A SCAN
-- iteration comes to its end (`left` bounds the calls that it may still take); it returns keys that
-- match, and every matching key that is there when it starts and until it ends (`due` says that the
-- iteration has still to return a key). DEL removes the keys that it is given and no others.
pub record Scans {W : Type 0} (client : CacheClient W) (prefix : Text) : Type 0 where
  pub stored : Text → W → Option Text
  pub left : Text → ℕ
  pub due : Text → Text → W → Bool
  pub page : Text → W → Text × List Text
  pub scan_answers :
      (cursor : Text) (w : W)
      → (client.scan cursor (prefix ++ codes "*") w).0 ≡ resolved (page cursor w)
  pub scan_stored :
      (j cursor : Text) (w : W)
      → stored j (client.scan cursor (prefix ++ codes "*") w).1 ≡ stored j w
  pub scan_ends :
      (cursor : Text) (w : W)
      → text_eq (page cursor w).0 cursor_zero ≡ false
      → left (page cursor w).0 < left cursor
  pub scan_matches :
      (j cursor : Text) (w : W) → member j (page cursor w).1 ≡ true → starts_with j prefix ≡ true
  pub due_first :
      (j v : Text) (w : W)
      → starts_with j prefix ≡ true
      → stored j w ≡ some v
      → due j cursor_zero w ≡ true
  pub due_next :
      (j cursor : Text) (w : W)
      → due j cursor w ≡ true
      → (member j (page cursor w).1 ≡ true)
        ⊎ ((text_eq (page cursor w).0 cursor_zero ≡ false)
            × (due j (page cursor w).0 (client.scan cursor (prefix ++ codes "*") w).1 ≡ true))
  pub del_answers : (keys : List Text) (w : W) → (client.del keys w).0 ≡ resolved tt
  pub del_stored :
      (j : Text) (keys : List Text) (w : W)
      → stored j (client.del keys w).1 ≡ (if member j keys then none else stored j w)
  pub del_due :
      (j cursor : Text) (keys : List Text) (w : W)
      → member j keys ≡ false
      → due j cursor w ≡ true
      → due j cursor (client.del keys w).1 ≡ true
