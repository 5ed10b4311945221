-- ===== src/Requests/Limiter/Burst.antt =====
-- How many requests the limiter passes on (backend/src/middleware/concurrentRequestHandler.js).
use stellar_edu_pay.Common.{
  ℕ, suc, ◌+◌, ◌-◌, ◌*◌, ◌≤◌, ◌≡◌, refl, ap, ◌∙◌, true, false, ◌&&◌, List, [], ◌∷◌, Option, none,
  some, ltb, leb, ◌==◌, if◌then◌else◌, arith, Bool-cases, inl, inr, ◌⊎◌,
}
use mathlib.Core.Path.{subst}
use stellar_edu_pay.Common.Maps.{Map, lookup, lookup-insert}
use stellar_edu_pay.Requests.Limiter.{
  Window, RateLimit, next_window, in_memory_increment, rate_limiter,
}

-- The number of requests of a key that are passed on, out of requests of any keys, in their order.
abbrev pub passed_of : RateLimit → ℕ → List (ℕ × ℕ) → Map Window → ℕ
passed_of l key [] store = 0
passed_of l key ((k, now) ∷ requests) store =
    let (answer, after) = rate_limiter l store k now in
    (if k == key && answer.passed then 1 else 0) + passed_of l key requests after

-- The requests of a key all come in an interval.
abbrev pub AllWithin : ℕ → ℕ → ℕ → List (ℕ × ℕ) → Type 0
AllWithin key first last [] = Unit
AllWithin key first last ((k, now) ∷ requests) =
    (k ≡ key → (first ≤ now) × (now ≤ last)) × AllWithin key first last requests

-- What a key may still be passed in an interval as long as a window.
abbrev room : RateLimit → Option Window → ℕ
room l none = l.max_requests
room l (some w) = l.max_requests - w.count + l.max_requests

after_lookup :
    (l : RateLimit) (store : Map Window) (k now key : ℕ)
    → lookup key (rate_limiter l store k now).1
      ≡ (if k == key then some (next_window l.window_ms now (lookup k store)) else lookup key store)
unfolding rate_limiter in_memory_increment
after_lookup l store k now key =
    lookup-insert k key (next_window l.window_ms now (lookup k store)) store

passed_count :
    (l : RateLimit) (store : Map Window) (k now : ℕ)
    → (rate_limiter l store k now).0.passed
      ≡ leb (next_window l.window_ms now (lookup k store)).count l.max_requests
unfolding rate_limiter in_memory_increment
passed_count l store k now = refl

one_more : (m c x : ℕ) → x ≤ m - suc c → (if leb (suc c) m then 1 else 0) + x ≤ m - c
one_more m c x h = elim (Bool-cases (leb (suc c) m)) [
  | inl y ↦ rw y (ground (arith, y, h))
  | inr y ↦ rw y (ground (arith, y, h))
]

one_more_of : (m c x y : ℕ) → x ≤ m - suc c + y → (if leb (suc c) m then 1 else 0) + x ≤ m - c + y
one_more_of m c x y h = elim (Bool-cases (leb (suc c) m)) [
  | inl t ↦ rw t (ground (arith, t, h))
  | inr t ↦ rw t (ground (arith, t, h))
]

abbrev fresh : ℕ → Window
fresh now = record { window_start = now; count = 1 }

abbrev further : Window → Window
further w = record { window_start = w.window_start; count = suc w.count }

next_further :
    (window_ms now : ℕ) (o : Option Window) (w : Window)
    → o ≡ some w
    → now ≤ w.window_start + window_ms
    → next_window window_ms now o ≡ further w
unfolding next_window
next_further window_ms now o w e h =
    let goes_on : ltb (w.window_start + window_ms) now ≡ false = ground (arith, h) in
    ap (next_window window_ms now) e ∙ simp goes_on refl

next_cases :
    (window_ms now : ℕ) (o : Option Window)
    → (next_window window_ms now o ≡ fresh now)
      ⊎ ((w : Window) × (o ≡ some w) × (next_window window_ms now o ≡ further w))
unfolding next_window
next_cases window_ms now none = inl refl
next_cases window_ms now (some w) = elim (Bool-cases (ltb (w.window_start + window_ms) now)) [
  | inl y ↦ inl (simp y refl)
  | inr y ↦ inr (w, refl, simp y refl)
]

room_least : (l : RateLimit) (o : Option Window) → l.max_requests ≤ room l o
room_least l none = omega arith
room_least l (some w) = omega arith

module _ (l : RateLimit) (key : ℕ) where
  -- The requests of other keys leave the key's window and its count as they are.
  other_stays :
      (store : Map Window) (k now : ℕ)
      → (k == key) ≡ false
      → lookup key (rate_limiter l store k now).1 ≡ lookup key store
  other_stays store k now other = after_lookup l store k now key ∙ rw other refl

  same_next :
      (store : Map Window) (k now : ℕ)
      → (k == key) ≡ true
      → lookup key (rate_limiter l store k now).1
        ≡ some (next_window l.window_ms now (lookup key store))
  same_next store k now same =
      let equal : k ≡ key = ground (arith, same) in
      after_lookup l store k now key
      ∙ rw same (ap (λ (j : ℕ). some (next_window l.window_ms now (lookup j store))) equal)

  same_passed :
      (store : Map Window) (k now : ℕ)
      → (k == key) ≡ true
      → (rate_limiter l store k now).0.passed
        ≡ leb (next_window l.window_ms now (lookup key store)).count l.max_requests
  same_passed store k now same =
      let equal : k ≡ key = ground (arith, same) in
      passed_count l store k now
      ∙ ap (λ (j : ℕ). leb (next_window l.window_ms now (lookup j store)).count l.max_requests)
          equal

  -- A window that is not over before the last request passes on what it has left.
  window_room :
      (first last : ℕ) (requests : List (ℕ × ℕ)) (store : Map Window) (w : Window)
      → lookup key store ≡ some w
      → last ≤ w.window_start + l.window_ms
      → AllWithin key first last requests
      → passed_of l key requests store ≤ l.max_requests - w.count
  window_room first last [] store w e h a = omega arith
  window_room first last ((k, now) ∷ requests) store w e h a = elim (Bool-cases (k == key)) [
    | inl same ↦
        let bound = (a.0 (ground (arith, same))).1 in
        let next = next_further l.window_ms now (lookup key store) w e (omega (arith, bound, h)) in
        let passed =
          same_passed store k now same ∙ ap (λ (v : Window). leb v.count l.max_requests) next in
        rw (same, passed)
          (one_more l.max_requests w.count _ (
            window_room first last requests _ (further w)
              (same_next store k now same ∙ ap some next) h a.1))
    | inr other ↦
        let later = window_room first last requests _ w (other_stays store k now other ∙ e) h a.1 in
        rw other (omega (arith, later))
  ]

  burst_room :
      (first : ℕ) (requests : List (ℕ × ℕ)) (store : Map Window)
      → AllWithin key first (first + l.window_ms) requests
      → passed_of l key requests store ≤ room l (lookup key store)
  burst_room first [] store a = omega arith
  burst_room first ((k, now) ∷ requests) store a = elim (Bool-cases (k == key)) [
    | inr other ↦
        let later =
          subst
            (λ (o : Option Window).
              passed_of l key requests (rate_limiter l store k now).1 ≤ room l o)
            (other_stays store k now other) (burst_room first requests _ a.1) in
        rw other (omega (arith, later))
    | inl same ↦
        let bound = (a.0 (ground (arith, same))).0 in
        elim (next_cases l.window_ms now (lookup key store)) [
          | inl next ↦
              let passed =
                same_passed store k now same
                ∙ ap (λ (v : Window). leb v.count l.max_requests) next in
              let later =
                window_room first (first + l.window_ms) requests _ (fresh now)
                  (same_next store k now same ∙ ap some next) (omega (arith, bound)) a.1 in
              rw (same, passed)
                (omega (arith, one_more l.max_requests 0 _ later, room_least l (lookup key store)))
          | inr (w, e, next) ↦
              let passed =
                same_passed store k now same
                ∙ ap (λ (v : Window). leb v.count l.max_requests) next in
              let later =
                subst
                  (λ (o : Option Window).
                    passed_of l key requests (rate_limiter l store k now).1 ≤ room l o)
                  (same_next store k now same ∙ ap some next) (burst_room first requests _ a.1) in
              rw (same, passed, e) (one_more_of l.max_requests w.count _ l.max_requests later)
        ]
  ]

room_most : (l : RateLimit) (o : Option Window) → room l o ≤ 2 * l.max_requests
room_most l none = omega arith
room_most l (some w) = omega arith

-- In any interval as long as a window, a client is passed on at most twice the permitted number of
-- requests, whatever the requests of other clients between its own and whatever is stored before.
pub passed_at_most_twice :
    (l : RateLimit) (key first : ℕ) (requests : List (ℕ × ℕ)) (store : Map Window)
    → AllWithin key first (first + l.window_ms) requests
    → passed_of l key requests store ≤ 2 * l.max_requests
passed_at_most_twice l key first requests store a =
    omega (arith, burst_room l key first requests store a, room_most l (lookup key store))
