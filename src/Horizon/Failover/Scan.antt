-- ===== src/Horizon/Failover/Scan.antt =====
-- What the scan for the next endpoint finds (backend/src/services/horizonFailoverClient.js).
use native.Mathlib.Nat.{mod-eq_of_lt, mod-eq-sub-mod}
use stellar_edu_pay.Common.{
  ℕ, zero, suc, ◌+◌, ◌-◌, ◌%◌, ◌≤◌, ◌<◌, ◌≡◌, ◌≢◌, refl, sym, ap, ◌∙◌, Bool, true, false, some, leb,
  ◌==◌, arith, Bool-cases, inl, inr, ◌⊎◌,
}
use stellar_edu_pay.Horizon.Failover.{
  State, closed, open_, half_open, Config, Breaker, Breakers, available_in, is_available, put, ask,
  scan,
}

-- Whether an endpoint would be available.
abbrev pub up : Config → ℕ → Breakers → ℕ → Bool
up cfg now breakers idx = (is_available cfg now (breakers idx)).0

available_again :
    (cfg : Config) (now : ℕ) (cb : Breaker) (s : State)
    → cb.state ≡ s
    → (is_available cfg now (available_in cfg now cb s).1).0 ≡ (available_in cfg now cb s).0
unfolding is_available
available_again cfg now cb closed e = rw e refl
available_again cfg now cb half_open e = rw e refl
available_again cfg now cb open_ e =
    elim (Bool-cases (leb (cb.opened_at + cfg.reset_timeout) now)) [
      | inl y ↦ rw y refl
      | inr y ↦ rw (y, e, y) refl
    ]

pub put-other :
    (idx k : ℕ) (cb : Breaker) (b : Breakers) → (k == idx) ≡ false → put idx cb b k ≡ b k
put-other idx k cb b e = rw e refl

put-same : (idx k : ℕ) (cb : Breaker) (b : Breakers) → (k == idx) ≡ true → put idx cb b k ≡ cb
put-same idx k cb b e = rw e refl

again :
    (cfg : Config) (now : ℕ) (cb : Breaker)
    → (is_available cfg now (is_available cfg now cb).1).0 ≡ (is_available cfg now cb).0
unfolding is_available
again cfg now cb = available_again cfg now cb cb.state refl

-- Asking an endpoint changes what no endpoint would answer.
pub ask-up :
    (cfg : Config) (now idx : ℕ) (b : Breakers) (k : ℕ)
    → up cfg now (ask cfg now idx b).1 k ≡ up cfg now b k
unfolding ask
ask-up cfg now idx b k = elim (Bool-cases (k == idx)) [
  | inl y ↦
      let equal : k ≡ idx = ground (arith, y) in
      ap (λ (c : Breaker). (is_available cfg now c).0)
        (put-same idx k (is_available cfg now (b idx)).1 b y)
      ∙ again cfg now (b idx)
      ∙ ap (up cfg now b) (sym equal)
  | inr y ↦
      ap (λ (c : Breaker). (is_available cfg now c).0)
        (put-other idx k (is_available cfg now (b idx)).1 b y)
]

pub ask-answer :
    (cfg : Config) (now idx : ℕ) (b : Breakers) → (ask cfg now idx b).0 ≡ up cfg now b idx
unfolding ask
ask-answer cfg now idx b = refl

-- The index of a step of the scan, without the remainder.
abbrev pub IsStep : ℕ → ℕ → ℕ → ℕ → Type 0
IsStep count base i idx = (idx < count) × ((idx ≡ base + i) ⊎ (idx + count ≡ base + i))

pub remainder-IsStep :
    (count base i : ℕ) → base ≤ count → i < count → IsStep count base i ((base + i) % count)
remainder-IsStep count base i h l = elim (Bool-cases (leb count (base + i))) [
  | inl y ↦
      let over : count ≤ base + i = ground (arith, y) in
      let least : base + i - count < count = omega (arith, h, l) in
      let wraps : (base + i) % count ≡ base + i - count =
        mod-eq-sub-mod over ∙ mod-eq_of_lt least in
      rw wraps (least, inr (omega (arith, over)))
  | inr y ↦
      let under : base + i < count = ground (arith, y) in rw (mod-eq_of_lt under) (under, inl refl)
]

clash : {b : Bool} → b ≡ false → b ≡ true → ⊥
clash e f = ground arith

passed_by : (i k : ℕ) → i ≤ k → i ≢ k → i < k
passed_by i k l n = ground (arith, l, n)

module _ (cfg : Config) (now count base : ℕ) where
  pub scan-up :
      (left i : ℕ) (b : Breakers) (k : ℕ)
      → up cfg now (scan cfg now count base i left b).1 k ≡ up cfg now b k
  unfolding scan
  scan-up zero i b k = refl
  scan-up (suc left) i b k = elim (Bool-cases (ask cfg now ((base + i) % count) b).0) [
    | inl y ↦ rw y (ask-up cfg now ((base + i) % count) b k)
    | inr y ↦ rw y (scan-up left (suc i) _ k ∙ ask-up cfg now ((base + i) % count) b k)
  ]

  scan_taken :
      (left i : ℕ) (b : Breakers)
      → (ask cfg now ((base + i) % count) b).0 ≡ true
      → (scan cfg now count base i (suc left) b).0 ≡ some ((base + i) % count)
  unfolding scan
  scan_taken left i b y = rw y refl

  scan_passed :
      (left i : ℕ) (b : Breakers)
      → (ask cfg now ((base + i) % count) b).0 ≡ false
      → (scan cfg now count base i (suc left) b).0
        ≡ (scan cfg now count base (suc i) left (ask cfg now ((base + i) % count) b).1).0
  unfolding scan
  scan_passed left i b y = rw y refl

  -- The scan ends at the step of an available endpoint, or before it.
  pub scan_finds :
      (left i k : ℕ) (b : Breakers)
      → i ≤ k
      → k < i + left
      → up cfg now b ((base + k) % count) ≡ true
      → (step : ℕ) × ((scan cfg now count base i left b).0 ≡ some ((base + step) % count))
        × (step ≤ k)
  scan_finds zero i k b l h a = absurd (omega (arith, l, h))
  scan_finds (suc left) i k b l h a = elim (Bool-cases (ask cfg now ((base + i) % count) b).0) [
    | inl y ↦ (i, scan_taken left i b y, l)
    | inr y ↦
        let here : up cfg now b ((base + i) % count) ≡ false =
          sym (ask-answer cfg now ((base + i) % count) b) ∙ y in
        let later : i < k =
          passed_by i k l
            (λ e. clash here (ap (λ (j : ℕ). up cfg now b ((base + j) % count)) e ∙ a)) in
        let (step, found, most) =
          scan_finds left (suc i) k (ask cfg now ((base + i) % count) b).1 later (omega (arith, h))
            (ask-up cfg now ((base + i) % count) b _ ∙ a) in
        (step, scan_passed left i b y ∙ found, most)
  ]
