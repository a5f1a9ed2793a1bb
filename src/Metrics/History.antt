-- ===== src/Metrics/History.antt =====
-- The counters against the list of the requests that were recorded.
use mathlib.Core.List.{map-append, append-nil, append_assoc, foldl}
use native.Mathlib.Decide.{dec_lt}
use ts_api_gateway.Common.{
  leb, if◌then◌else◌, lt→ltb, Bool-cases, length, drop, tally, length-append, tally-append, All, ℕ,
  zero, suc, ◌+◌, ◌-◌, ◌≤◌, ◌≡◌, refl, sym, ap, ◌∙◌, inl, inr, Bool, false, Option, none, some,
  List, [], ◌∷◌, ◌++◌, map, arith, Text, codes, text_eq, text_eq_iff, lookup, put, Dict, lookup-put,
}
use ts_api_gateway.Metrics.{
  latency_buckets_ms, Count, counted, State, status_class, Inherited, plus_one, increment,
  fill_buckets, add_sample, record_request, reset_metrics, read_count,
}

pub record Sample : Type 0 where
  pub route : Text
  pub status_code : ℕ
  pub latency_ms : ℕ

abbrev pub note : Inherited → State → Sample → State
note inherited state r = record_request inherited r.route r.status_code r.latency_ms state

-- A key under which a plain object inherits nothing.
abbrev pub IsPlainKey : Inherited → Text → Type 0
IsPlainKey inherited key = (inherited key ≡ none) × (text_eq key (codes "__proto__") ≡ false)

abbrev pub HasPlainKeys : Inherited → Sample → Type 0
HasPlainKeys inherited r =
    IsPlainKey inherited r.route × IsPlainKey inherited (status_class r.status_code)

-- A key that was never counted is absent; any other holds its number.
abbrev pub held : ℕ → Option Count
held zero = none
held (suc n) = some (counted (suc n))

-- What the counters hold after a history, oldest first.
pub record Counts (past : List Sample) (state : State) : Type 0 where
  pub total : state.requests.total ≡ length past
  pub count : state.latency.count ≡ length past
  pub route_count :
      (k : Text) → lookup k state.requests.by_route ≡ held (tally (λ r. text_eq r.route k) past)
  pub class_count :
      (k : Text)
      → lookup k state.requests.by_status_class
        ≡ held (tally (λ r. text_eq (status_class r.status_code) k) past)
  pub histogram :
      state.latency.buckets
      ≡ map (λ b. (b, tally (λ r. leb r.latency_ms b) past)) latency_buckets_ms
  pub window : state.latency_samples ≡ drop (length past - 1000) (map (λ r. r.latency_ms) past)

plus_one-held : (n : ℕ) → plus_one (held n) ≡ counted (n + 1)
plus_one-held zero = refl
plus_one-held (suc n) = refl

tally-concat {ℓ} :
    {A : Type ℓ} (p : A → Bool) (xs : List A) (x : A)
    → tally p (xs ++ (x ∷ [])) ≡ tally p xs + (if p x then 1 else 0)
tally-concat p xs x = tally-append p xs (x ∷ []) ∙ omega arith

read_count-held :
    (inherited : Inherited) (key : Text) (counts : Dict Count) (n : ℕ)
    → inherited key ≡ none
    → lookup key counts ≡ held n
    → plus_one (read_count inherited key counts) ≡ counted (n + 1)
read_count-held inherited key counts zero own e = ground (arith, own, e)
read_count-held inherited key counts (suc n) own e = ground (arith, own, e)

increment_plain :
    (inherited : Inherited) (key : Text) (counts : Dict Count) (n : ℕ)
    → IsPlainKey inherited key
    → lookup key counts ≡ held n
    → increment inherited key counts ≡ put key (counted (n + 1)) counts
unfolding increment
increment_plain inherited key counts n (own, plain) e =
    rw plain (ap (λ c. put key c counts) (read_count-held inherited key counts n own e))

held-suc : (n : ℕ) → some (counted (n + 1)) ≡ held (n + 1)
held-suc n =
    let next : suc n ≡ n + 1 = omega arith in ap (λ m. some (counted m)) (sym next) ∙ ap held next

-- One more sample, counted under the key that `f` gives it.
counted_step :
    (inherited : Inherited) (f : Sample → Text) (past : List Sample) (r : Sample)
    (counts : Dict Count)
    → IsPlainKey inherited (f r)
    → ((k : Text) → lookup k counts ≡ held (tally (λ s. text_eq (f s) k) past))
    → (k : Text)
    → lookup k (increment inherited (f r) counts)
      ≡ held (tally (λ s. text_eq (f s) k) (past ++ (r ∷ [])))
counted_step inherited f past r counts plain h k =
    let n = tally (λ s. text_eq (f s) (f r)) past in
    let step =
      ap (lookup k) (increment_plain inherited (f r) counts n plain (h (f r)))
      ∙ lookup-put (f r) k (counted (n + 1)) counts in
    let sum = tally-concat (λ s. text_eq (f s) k) past r in
    elim (Bool-cases (text_eq (f r) k)) [
      | inl same ↦
          let key : f r ≡ k = (text_eq_iff (f r) k).0 same in
          let total : n + 1 ≡ tally (λ s. text_eq (f s) k) (past ++ (r ∷ [])) =
            ap (λ x. tally (λ s. text_eq (f s) x) past + 1) key ∙ sym (sum ∙ rw same refl) in
          step ∙ rw same (held-suc n ∙ ap held total)
      | inr differs ↦
          let total : tally (λ s. text_eq (f s) k) past
              ≡ tally (λ s. text_eq (f s) k) (past ++ (r ∷ [])) =
            sym (sum ∙ rw differs (omega arith)) in
          step ∙ rw differs (h k ∙ ap held total)
    ]

fill_buckets-map :
    (latency_ms : ℕ) (f g : ℕ → ℕ) (bs : List ℕ)
    → ((b : ℕ) → g b ≡ f b + (if leb latency_ms b then 1 else 0))
    → fill_buckets latency_ms (map (λ b. (b, f b)) bs) ≡ map (λ b. (b, g b)) bs
fill_buckets-map latency_ms f g [] h = refl
fill_buckets-map latency_ms f g (b ∷ bs) h =
    ground (arith, h b, fill_buckets-map latency_ms f g bs h)

drop-append_of_le : (n : ℕ) (xs ys : List ℕ) → n ≤ length xs → drop n (xs ++ ys) ≡ drop n xs ++ ys
drop-append_of_le zero xs ys h = refl
drop-append_of_le (suc n) [] ys h = absurd (omega arith)
drop-append_of_le (suc n) (x ∷ xs) ys h = drop-append_of_le n xs ys (omega arith)

drop-drop_one : (n : ℕ) (xs : List ℕ) → drop 1 (drop n xs) ≡ drop (suc n) xs
drop-drop_one zero xs = refl
drop-drop_one (suc n) [] = refl
drop-drop_one (suc n) (x ∷ xs) = drop-drop_one n xs

length-drop : (n : ℕ) (xs : List ℕ) → length (drop n xs) ≡ length xs - n
length-drop zero xs = omega arith
length-drop (suc n) [] = omega arith
length-drop (suc n) (x ∷ xs) = omega (arith, length-drop n xs)

-- The samples are always the last thousand latencies.
add_sample-drop :
    (x : ℕ) (xs : List ℕ)
    → add_sample x (drop (length xs - 1000) xs) ≡ drop (length xs + 1 - 1000) (xs ++ (x ∷ []))
add_sample-drop x xs =
    let pushed = drop (length xs - 1000) xs ++ (x ∷ []) in
    let size : length pushed ≡ length xs - (length xs - 1000) + 1 = omega (
      arith,
      length-append (drop (length xs - 1000) xs) (x ∷ []),
      length-drop (length xs - 1000) xs,
    ) in
    let joined = drop-append_of_le (length xs - 1000) xs (x ∷ []) (omega arith) in
    elim (dec_lt 1000 (length pushed)) [
      | yes over ↦
          let next : length xs + 1 - 1000 ≡ suc (length xs - 1000) = omega (arith, size) in
          rw (next, lt→ltb 1000 (length pushed) over)
            (ap (drop 1) (sym joined) ∙ drop-drop_one (length xs - 1000) (xs ++ (x ∷ [])))
      | no within ↦
          let same : length xs + 1 - 1000 ≡ length xs - 1000 = omega (arith, size) in
          rw same (ground (arith, joined))
    ]

map-concat :
    (past : List Sample) (r : Sample)
    → map (λ s. s.latency_ms) (past ++ (r ∷ []))
      ≡ map (λ s. s.latency_ms) past ++ (r.latency_ms ∷ [])
map-concat past r = map-append (λ s. s.latency_ms) past (r ∷ [])

length-concat : (past : List Sample) (r : Sample) → length (past ++ (r ∷ [])) ≡ length past + 1
length-concat past r = length-append past (r ∷ []) ∙ omega arith

length-latencies : (past : List Sample) → length (map (λ s. s.latency_ms) past) ≡ length past
length-latencies [] = refl
length-latencies (r ∷ past) = ap suc (length-latencies past)

note-window :
    (past : List Sample) (r : Sample) (samples : List ℕ)
    → samples ≡ drop (length past - 1000) (map (λ s. s.latency_ms) past)
    → add_sample r.latency_ms samples
      ≡ drop (length (past ++ (r ∷ [])) - 1000) (map (λ s. s.latency_ms) (past ++ (r ∷ [])))
note-window past r samples e =
    let xs = map (λ s. s.latency_ms) past in
    let n = length-latencies past in
    ap (add_sample r.latency_ms) e
    ∙ ap (λ k. add_sample r.latency_ms (drop (k - 1000) xs)) (sym n)
    ∙ add_sample-drop r.latency_ms xs
    ∙ ap (λ k. drop (k + 1 - 1000) (xs ++ (r.latency_ms ∷ []))) n
    ∙ ap (λ k. drop (k - 1000) (xs ++ (r.latency_ms ∷ []))) (sym (length-concat past r))
    ∙ ap (drop (length (past ++ (r ∷ [])) - 1000)) (sym (map-concat past r))

module _ (inherited : Inherited) where
  note-Counts :
      (past : List Sample) (r : Sample) (state : State)
      → HasPlainKeys inherited r
      → Counts past state
      → Counts (past ++ (r ∷ [])) (note inherited state r)
  unfolding record_request
  note-Counts past r state plain h = record {
    total = omega (arith, h.total, length-concat past r);
    count = omega (arith, h.count, length-concat past r);
    route_count =
        counted_step inherited (λ s. s.route) past r state.requests.by_route plain.0 h.route_count;
    class_count =
        counted_step inherited (λ s. status_class s.status_code) past r
          state.requests.by_status_class plain.1 h.class_count;
    histogram =
        ap (fill_buckets r.latency_ms) h.histogram
        ∙ fill_buckets-map r.latency_ms (λ b. tally (λ s. leb s.latency_ms b) past)
            (λ b. tally (λ s. leb s.latency_ms b) (past ++ (r ∷ []))) latency_buckets_ms
            (λ b. tally-concat (λ s. leb s.latency_ms b) past r);
    window = note-window past r state.latency_samples h.window;
  }

  recorded-Counts :
      (past later_ones : List Sample) (state : State)
      → All (HasPlainKeys inherited) later_ones
      → Counts past state
      → Counts (past ++ later_ones) (foldl (note inherited) state later_ones)
  recorded-Counts past [] state plain h = rw append-nil h
  recorded-Counts past (r ∷ rs) state plain h = rw (sym (append_assoc past (r ∷ []) rs)) (
      recorded-Counts (past ++ (r ∷ [])) rs (note inherited state r) plain.1
        (note-Counts past r state plain.0 h))

  -- After any requests since a reset whose route names and status classes are no members of
  -- Object.prototype, the total, the count for each route and for each status class, and each bucket
  -- of the histogram are what counting over the requests gives, and the samples are the latencies of
  -- the last thousand.
  pub record_request-Counts :
      (requests : List Sample) (state : State)
      → All (HasPlainKeys inherited) requests
      → Counts requests (foldl (note inherited) (reset_metrics state) requests)
  record_request-Counts requests state plain =
      recorded-Counts [] requests (reset_metrics state) plain (record {
        total = refl;
        count = refl;
        route_count = λ k. unfold lookup in refl;
        class_count = λ k. unfold lookup in refl;
        histogram = refl;
        window = refl;
      })
