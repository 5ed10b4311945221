-- ===== src/Outbox/Deliveries.antt =====
-- The names that have been served, and those that an attempt calls
-- (backend/src/services/outboxDispatcher.js).
use stellar_edu_pay.Common.{
  ℕ, ◌≡◌, refl, sym, ap, ◌∙◌, Bool, true, false, not, ◌||◌, List, [], ◌∷◌, ◌++◌, filter, All, ◌==◌,
  if◌then◌else◌, arith, Bool-cases, inl, inr,
}
use stellar_edu_pay.Outbox.{Event, contains, Call, add_to_set}

abbrev pub Missing : List ℕ → ℕ → Type 0
Missing names n = contains names n ≡ false

abbrev pub AllDistinct : List ℕ → Type 0
AllDistinct [] = Unit
AllDistinct (n ∷ names) = (contains names n ≡ false) × AllDistinct names

-- No call is to a listener that was served before, or by an earlier one of these calls.
abbrev pub IsOnce : List ℕ → List Call → Type 0
IsOnce served [] = Unit
IsOnce served (c ∷ calls) =
    (contains served c.listener ≡ false)
    × IsOnce (if c.succeeded then c.listener ∷ served else served) calls

pub IsOnce-same :
    (xs ys : List ℕ) (calls : List Call)
    → ((m : ℕ) → contains xs m ≡ contains ys m)
    → IsOnce xs calls
    → IsOnce ys calls
IsOnce-same xs ys [] h o = _
IsOnce-same xs ys (c ∷ calls) h o =
    (sym (h c.listener) ∙ o.0, IsOnce-same _ _ calls (more c.succeeded) o.1)
  where
    more :
        (b : Bool) (m : ℕ)
        → contains (if b then c.listener ∷ xs else xs) m
          ≡ contains (if b then c.listener ∷ ys else ys) m
    more true m = ap (λ (t : Bool). c.listener == m || t) (h m)
    more false m = h m

pub contains-snoc : (xs : List ℕ) (n m : ℕ) → contains (xs ++ n ∷ []) m ≡ (n == m || contains xs m)
contains-snoc [] n m = refl
contains-snoc (x ∷ xs) n m = ground (arith, contains-snoc xs n m)

contains-add_to_set :
    (n : ℕ) (e : Event) (m : ℕ)
    → contains e.delivered_to n ≡ false
    → contains (add_to_set n e).delivered_to m ≡ contains (n ∷ e.delivered_to) m
unfolding add_to_set
contains-add_to_set n e m h = rw h (contains-snoc e.delivered_to n m)

-- Behind a listener that was served, the others are still missing.
Missing-cons :
    (n : ℕ) (served names : List ℕ)
    → contains names n ≡ false
    → All (Missing served) names
    → All (Missing (n ∷ served)) names
Missing-cons n served [] h a = _
Missing-cons n served (m ∷ names) h a =
    (ground (arith, a.0), Missing-cons n served names (ground arith) a.1)

pub Missing-same :
    (xs ys names : List ℕ)
    → ((m : ℕ) → contains xs m ≡ contains ys m)
    → All (Missing xs) names
    → All (Missing ys) names
Missing-same xs ys [] h a = _
Missing-same xs ys (m ∷ names) h a = (sym (h m) ∙ a.0, Missing-same xs ys names h a.1)

pub contains-outcome :
    (n : ℕ) (e : Event) (b : Bool)
    → contains e.delivered_to n ≡ false
    → (m : ℕ)
    → contains (if b then add_to_set n e else e).delivered_to m
      ≡ contains (if b then n ∷ e.delivered_to else e.delivered_to) m
contains-outcome n e true h m = contains-add_to_set n e m h
contains-outcome n e false h m = refl

pub Missing-outcome :
    (n : ℕ) (served names : List ℕ) (b : Bool)
    → contains names n ≡ false
    → All (Missing served) names
    → All (Missing (if b then n ∷ served else served)) names
Missing-outcome n served names true h a = Missing-cons n served names h a
Missing-outcome n served names false h a = a

-- The listeners that a dispatch calls.
pub pending-AllDistinct :
    (served names : List ℕ)
    → AllDistinct names
    → AllDistinct (filter (λ n. not (contains served n)) names)
      × ((m : ℕ)
          → contains names m ≡ false
          → contains (filter (λ n. not (contains served n)) names) m ≡ false)
pending-AllDistinct served [] d = (_, λ m h. h)
pending-AllDistinct served (n ∷ names) d =
    let (ih, keeps) = pending-AllDistinct served names d.1 in
    elim (Bool-cases (contains served n)) [
      | inl y ↦ rw y (ih, λ m h. keeps m (ground arith))
      | inr y ↦ rw y ((keeps n d.0, ih), λ m h. ground (arith, keeps m (ground arith)))
    ]

pub pending-Missing :
    (served names : List ℕ) → All (Missing served) (filter (λ n. not (contains served n)) names)
pending-Missing served [] = _
pending-Missing served (n ∷ names) = elim (Bool-cases (contains served n)) [
  | inl y ↦ rw y (pending-Missing served names)
  | inr y ↦ rw y (y, pending-Missing served names)
]
