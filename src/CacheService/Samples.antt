-- ===== src/CacheService/Samples.antt =====
-- A Redis that holds its keys in a list and never fails, and a way to write entries as texts: the
-- assumptions of the theorems on the cache service can be met.
use mathlib.Core.List.{append_assoc}
use ts_api_gateway.CacheService.{CacheClient, EntryCodec, cursor_zero, route_prefix}
use ts_api_gateway.CacheService.RoundTrip.{IsFaithful}
use ts_api_gateway.CacheService.Scans.{Scans}
use ts_api_gateway.Common.{
  if◌then◌else◌, length, take, keep, ℕ, zero, suc, ◌-◌, ◌≡◌, refl, ap, ◌≢◌, inl, true, false, not,
  none, some, List, [], ◌∷◌, ◌++◌, arith, Text, codes, text_eq, starts_with, text_eq_iff, lookup,
  put, Dict, lookup-put_self,
}
use ts_api_gateway.Gateway.Cache.{CachedResponse}
use ts_api_gateway.Proxy.{Thrown, error, Outcome, resolved, thrown}
use ts_api_gateway.Proxy.Retry.{member}

-- `SCAN` answers in one page; the pattern is a prefix and a star.
abbrev pub matching : Text → Dict Text → List Text
matching prefix [] = []
matching prefix ((k, v) ∷ m) =
    if starts_with k prefix then k ∷ matching prefix m else matching prefix m

abbrev pub list_client : CacheClient (Dict Text)
list_client = record {
  get_key = λ k m. (resolved (lookup k m), m);
  set_ex = λ k v ttl m. (resolved tt, put k v m);
  scan = λ cursor pattern_of m.
      (resolved (cursor_zero, matching (take (length pattern_of - 1) pattern_of) m), m);
  del = λ keys m. (resolved tt, keep (λ e. not (member e.0 keys)) m);
}

pub member-matching :
    (prefix j : Text) (m : Dict Text)
    → member j (matching prefix m) ≡ true
    → starts_with j prefix ≡ true
unfolding member
member-matching prefix j [] h = cc
member-matching prefix j ((k, v) ∷ m) h =
    ground (arith, h, text_eq_iff k j, member-matching prefix j m)

pub matching-lookup :
    (prefix j v : Text) (m : Dict Text)
    → starts_with j prefix ≡ true
    → lookup j m ≡ some v
    → member j (matching prefix m) ≡ true
unfolding member lookup
matching-lookup prefix j v [] h e = cc
matching-lookup prefix j v ((k, u) ∷ m) h e =
    ground (arith, h, e, text_eq_iff k j, matching-lookup prefix j v m)

pub lookup-keep :
    (j : Text) (keys : List Text) (m : Dict Text)
    → lookup j (keep (λ e. not (member e.0 keys)) m) ≡ (if member j keys then none else lookup j m)
unfolding lookup
lookup-keep j keys [] = ground arith
lookup-keep j keys ((k, v) ∷ m) = ground (arith, text_eq_iff k j, lookup-keep j keys m)

pub matching-keep :
    (prefix j : Text) (keys : List Text) (m : Dict Text)
    → member j keys ≡ false
    → member j (matching prefix m) ≡ true
    → member j (matching prefix (keep (λ e. not (member e.0 keys)) m)) ≡ true
unfolding member
matching-keep prefix j keys [] unlisted h = h
matching-keep prefix j keys ((k, v) ∷ m) unlisted h =
    ground (arith, unlisted, h, text_eq_iff k j, matching-keep prefix j keys m)

pub zero_is_last : text_eq cursor_zero cursor_zero ≢ false
unfolding text_eq
zero_is_last e = cc

abbrev pub list_scans : Scans list_client (route_prefix (codes "a"))
list_scans = record {
  stored = lookup;
  left = λ cursor. 0;
  due = λ j cursor m. member j (matching (route_prefix (codes "a")) m);
  page = λ cursor m. (cursor_zero, matching (route_prefix (codes "a")) m);
  scan_answers = λ cursor m. refl;
  scan_stored = λ j cursor m. refl;
  scan_ends = λ cursor m e. absurd (zero_is_last e);
  scan_matches = λ j cursor m h. member-matching (route_prefix (codes "a")) j m h;
  due_first = λ j v m h e. matching-lookup (route_prefix (codes "a")) j v m h e;
  due_next = λ j cursor m h. inl h;
  del_answers = λ keys m. refl;
  del_stored = lookup-keep;
  del_due =
      λ j cursor keys m unlisted h. matching-keep (route_prefix (codes "a")) j keys m unlisted h;
}

-- A text with an end mark.
abbrev marked : Text → Text
marked [] = 0 ∷ []
marked (c ∷ s) = suc c ∷ marked s

abbrev marked_pairs : Dict Text → Text
marked_pairs [] = []
marked_pairs ((k, v) ∷ m) = marked k ++ (marked v ++ marked_pairs m)

-- A text up to its end mark, and what is behind it.
abbrev read_text : Text → Text × Text
read_text [] = ([], [])
read_text (zero ∷ rest) = ([], rest)
read_text (suc c ∷ rest) = let (s, rest') = read_text rest in (c ∷ s, rest')

abbrev read_pairs : ℕ → Text → Dict Text × Text
read_pairs zero rest = ([], rest)
read_pairs (suc n) rest =
    let (k, rest1) = read_text rest in
    let (v, rest2) = read_text rest1 in let (m, rest3) = read_pairs n rest2 in ((k, v) ∷ m, rest3)

read_text-marked : (s rest : Text) → read_text (marked s ++ rest) ≡ (s, rest)
read_text-marked [] rest = refl
read_text-marked (c ∷ s) rest = rw (read_text-marked s rest) refl

read_pairs-marked_pairs :
    (m : Dict Text) (rest : Text) → read_pairs (length m) (marked_pairs m ++ rest) ≡ (m, rest)
read_pairs-marked_pairs [] rest = refl
read_pairs-marked_pairs ((k, v) ∷ m) rest =
    let regrouped : (marked k ++ (marked v ++ marked_pairs m)) ++ rest
        ≡ marked k ++ (marked v ++ (marked_pairs m ++ rest)) =
      simp append_assoc in
    rw
      (
        regrouped,
        read_text-marked k (marked v ++ (marked_pairs m ++ rest)),
        read_text-marked v (marked_pairs m ++ rest),
        read_pairs-marked_pairs m rest,
      )
      refl

unreadable : Thrown
unreadable = error (codes "SyntaxError") (codes "unexpected end") none

pub write_entry : CachedResponse → Text
write_entry r =
    r.status_code
    ∷ r.cached_at
    ∷ length r.headers
    ∷ (marked_pairs r.headers ++ (marked r.body ++ []))

pub read_entry : Text → Outcome CachedResponse
read_entry (status ∷ at ∷ n ∷ rest) =
    let (headers, rest') = read_pairs n rest in
    resolved (record {
      status_code = status;
      headers = headers;
      body = (read_text rest').0;
      cached_at = at;
    })
read_entry _ = thrown unreadable

pub read_entry-write_entry : (r : CachedResponse) → read_entry (write_entry r) ≡ resolved r
unfolding read_entry write_entry
read_entry-write_entry r =
    rw (read_pairs-marked_pairs r.headers (marked r.body ++ []), read_text-marked r.body []) refl

pub write_entry-ne-nil : (r : CachedResponse) → write_entry r ≢ []
unfolding write_entry
write_entry-ne-nil r e = cc

abbrev pub plain_codec : EntryCodec
plain_codec = record {
  stringify = write_entry;
  parse = read_entry;
  to_base64 = λ b. b;
  from_base64 = λ s. s;
}

abbrev pub list_faithful : IsFaithful list_client plain_codec
list_faithful = record {
  set_get = λ key v ttl m e. ap resolved (lookup-put_self key v m);
  json = read_entry-write_entry;
  json_text = write_entry-ne-nil;
  base64 = λ b. refl;
}
