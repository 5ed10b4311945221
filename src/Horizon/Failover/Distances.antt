-- ===== src/Horizon/Failover/Distances.antt =====
-- How far endpoints are apart, around the list (backend/src/services/horizonFailoverClient.js).
use stellar_edu_pay.Common.{
  ℕ, suc, ◌+◌, ◌-◌, ◌≤◌, ◌<◌, ◌≡◌, ◌≢◌, false, List, ◌∷◌, leb, if◌then◌else◌, arith, inl, inr,
}
use stellar_edu_pay.Horizon.Failover.{contains}
use stellar_edu_pay.Horizon.Failover.Scan.{IsStep}

-- How far an endpoint is behind another, around the list.
abbrev pub dist : ℕ → ℕ → ℕ → ℕ
dist count from to = if leb from to then to - from else to + count - from

abbrev pub IsUntried : ℕ → ℕ → ℕ → List ℕ → Type 0
IsUntried count from to tried =
    (m : ℕ) → m < count → dist count from m ≤ dist count from to → contains tried m ≡ false

pub target_step :
    (count c j idx : ℕ)
    → c < count
    → j < count
    → c ≢ j
    → IsStep count (suc c) (dist count c j - 1) idx
    → idx ≡ j
target_step count c j idx l m n (i, inl e) = ground (arith, l, m, n, i, e)
target_step count c j idx l m n (i, inr e) = ground (arith, l, m, n, i, e)

-- A step that does not pass the target comes nearer to it.
pub nearer :
    (count c j step idx : ℕ)
    → c < count
    → j < count
    → c ≢ j
    → step ≤ dist count c j - 1
    → IsStep count (suc c) step idx
    → (idx ≢ c) × (dist count idx j < dist count c j)
nearer count c j step idx l m n s (i, inl e) =
    (ground (arith, l, m, n, s, i, e), ground (arith, l, m, n, s, i, e))
nearer count c j step idx l m n s (i, inr e) =
    (ground (arith, l, m, n, s, i, e), ground (arith, l, m, n, s, i, e))

-- What lies between the step and the target lies between the start and the target.
pub between :
    (count c j step idx m : ℕ)
    → c < count
    → j < count
    → c ≢ j
    → step ≤ dist count c j - 1
    → IsStep count (suc c) step idx
    → m < count
    → dist count idx m ≤ dist count idx j
    → (c ≢ m) × (dist count c m ≤ dist count c j)
between count c j step idx m l k n s (i, inl e) h d =
    (ground (arith, l, k, n, s, i, e, h, d), ground (arith, l, k, n, s, i, e, h, d))
between count c j step idx m l k n s (i, inr e) h d =
    (ground (arith, l, k, n, s, i, e, h, d), ground (arith, l, k, n, s, i, e, h, d))

pub IsUntried-next :
    (count c j step idx : ℕ) (tried : List ℕ)
    → c < count
    → j < count
    → c ≢ j
    → step ≤ dist count c j - 1
    → IsStep count (suc c) step idx
    → IsUntried count c j tried
    → IsUntried count idx j (c ∷ tried)
IsUntried-next count c j step idx tried l k n s w u m h d =
    let (differs, within) = between count c j step idx m l k n s w h d in
    let rest : contains tried m ≡ false = u m h within in ground (arith, differs, rest)
