-- ===== src/RateLimiter/Trimming.antt =====
-- What trimming a sorted set does to the counts of windows.
use native.Mathlib.Decide.{dec_le}
use ts_api_gateway.Common.{
  ltb, leb, length, keep, tally, All, ℕ, ◌+◌, ◌≤◌, ◌≡◌, refl, ◌⊎◌, inl, inr, Bool, true, false, not,
  ◌&&◌, Option, none, some, List, [], ◌∷◌, arith, Text, text_eq,
}
use ts_api_gateway.RateLimiter.Redis.{sub_ℕ, above, is_over}

-- Whether a hit at `a` lies in the window of length `w` that ends at `t`: `t - w < a` and `a ≤ t`.
abbrev pub in_window : ℕ → ℕ → ℕ → Bool
in_window w t a = leb a t && ltb t (a + w)

-- Trimming at `now` leaves the entries of the window that ends at `now`.
pub length-trimmed :
    (w now : ℕ) (es : List (ℕ × Text))
    → All (λ e. e.0 ≤ now) es
    → length (keep (λ e. above (sub_ℕ now w) e.0) es) ≡ tally (λ e. in_window w now e.0) es
length-trimmed w now [] h = refl
length-trimmed w now ((a, m) ∷ es) h = ground (arith, length-trimmed w now es h.1)

-- Trimming at `now` hides nothing from a window that ends at `now` or later.
pub tally-trimmed :
    (w now t : ℕ) (es : List (ℕ × Text))
    → now ≤ t
    → tally (λ e. in_window w t e.0) (keep (λ e. above (sub_ℕ now w) e.0) es)
      ≡ tally (λ e. in_window w t e.0) es
tally-trimmed w now t [] le = refl
tally-trimmed w now t ((a, m) ∷ es) le = ground (arith, tally-trimmed w now t es le)

pub keep_absent :
    (m : Text) (es : List (ℕ × Text))
    → All (λ e. text_eq e.1 m ≡ false) es
    → keep (λ e. not (text_eq e.1 m)) es ≡ es
keep_absent m [] h = refl
keep_absent m (e ∷ es) h = rw (h.0, keep_absent m es h.1)

-- A window that ends later holds no more of the hits so far than the one that ends now.
pub tally-le-now :
    (w now t : ℕ) (hs : List ℕ)
    → All (λ a. a ≤ now) hs
    → now ≤ t
    → tally (in_window w t) hs ≤ tally (in_window w now) hs
tally-le-now w now t [] h le = omega arith
tally-le-now w now t (a ∷ hs) h le = ground (arith, tally-le-now w now t hs h.1 le)

-- After a deadline that its hits do not outlast, a set counts in no window.
pub expired_counts :
    (w t d : ℕ) (es : List (ℕ × Text))
    → d ≤ t
    → All (λ e. e.0 + w ≤ d) es
    → tally (λ e. in_window w t e.0) es ≡ 0
expired_counts w t d [] le h = refl
expired_counts w t d (e ∷ es) le h = ground (arith, expired_counts w t d es le h.1, h.0)

-- Whether a deadline is over.
pub deadline-cases :
    (now : ℕ) (v : Option ℕ)
    → (is_over v now ≡ false) ⊎ ((d : ℕ) × (v ≡ some d) × (d ≤ now) × (is_over v now ≡ true))
deadline-cases now none = inl refl
deadline-cases now (some d) = elim (dec_le d now) [
  | yes over ↦ inr (d, refl, over, ground arith)
  | no live ↦ inl (ground arith)
]
