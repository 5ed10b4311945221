-- ===== src/Payment/Confirmation/Polling.antt =====
-- What repeated polling does to the confirmation state
-- (backend/src/services/paymentConfirmationStateMachine.js).
use stellar_edu_pay.Common.{
  ℕ, ◌≤◌, max, true, false, if◌then◌else◌, ◌≡◌, refl, sym, ap, ◌∙◌, List, [], ◌∷◌, Option, none,
  some, arith,
}
use stellar_edu_pay.Payment.Confirmation.{
  State, detected, failed, rank, is_terminal, Thresholds, Sighting, compute_target_state, determine,
  poll,
}

-- One poll never lowers the rank.
rank-determine :
    (tx : Option ℕ) (t : Thresholds) (s : State) (seen : Sighting)
    → rank s ≤ rank (determine tx t s seen)
unfolding determine
rank-determine tx t detected seen = ground arith
rank-determine tx t _ seen = ground arith

rank-poll :
    (tx : Option ℕ) (t : Thresholds) (s : State) (seen : List Sighting)
    → rank s ≤ rank (poll tx t s seen)
unfolding poll
rank-poll tx t s [] = omega arith
rank-poll tx t s (x ∷ xs) =
    omega (arith, rank-determine tx t s x, rank-poll tx t (determine tx t s x) xs)

terminal-determine :
    (tx : Option ℕ) (t : Thresholds) (s : State) (seen : Sighting)
    → is_terminal s ≡ true
    → determine tx t s seen ≡ s
unfolding determine
terminal-determine tx t s seen h = ground arith

terminal-poll :
    (tx : Option ℕ) (t : Thresholds) (s : State) (seen : List Sighting)
    → is_terminal s ≡ true
    → poll tx t s seen ≡ s
unfolding poll
terminal-poll tx t s [] h = refl
terminal-poll tx t s (x ∷ xs) h = rw (terminal-determine tx t s x h) (terminal-poll tx t s xs h)

-- Polling is monotonic: no sequence of sightings, stale or suspicious ones among them, lowers the
-- rank of the state; and FINALIZED and FAILED are never left.
poll_monotonic :
    (tx : Option ℕ) (t : Thresholds) (s : State) (seen : List Sighting)
    → (rank s ≤ rank (poll tx t s seen)) × (is_terminal s ≡ true → poll tx t s seen ≡ s)
poll_monotonic tx t s seen = (rank-poll tx t s seen, terminal-poll tx t s seen)

-- Polling again with the same sighting changes nothing.
poll_idempotent :
    (tx : Option ℕ) (t : Thresholds) (s : State) (seen : Sighting)
    → determine tx t (determine tx t s seen) seen ≡ determine tx t s seen
unfolding determine
poll_idempotent tx t s seen = ground arith

-- The highest ledger among the sightings.
abbrev pub highest : List ℕ → ℕ
highest [] = 0
highest (n ∷ ns) = max n (highest ns)

-- Sightings that raise no suspicion.
abbrev pub clean : List ℕ → List Sighting
clean [] = []
clean (n ∷ ns) = record { latest = some n; is_suspicious = false } ∷ clean ns

max-zero : (n : ℕ) → max n 0 ≡ n
max-zero n = omega arith

max_assoc : (a b c : ℕ) → max a (max b c) ≡ max (max a b) c
max_assoc a b c = omega arith

-- The target at a ledger, without suspicion.
abbrev pub target : Option ℕ → Thresholds → ℕ → State
target tx t n = compute_target_state tx (some n) false t

determine-target :
    (tx : Option ℕ) (t : Thresholds) (n m : ℕ)
    → determine tx t (target tx t n) (record { latest = some m; is_suspicious = false })
      ≡ target tx t (max n m)
unfolding determine
determine-target none t n m = ground arith
determine-target (some x) t n m = ground arith

poll-target :
    (tx : Option ℕ) (t : Thresholds) (n : ℕ) (ns : List ℕ)
    → poll tx t (target tx t n) (clean ns) ≡ target tx t (max n (highest ns))
unfolding poll
poll-target tx t n [] = rw (max-zero n)
poll-target tx t n (m ∷ ms) =
    ap (λ s. poll tx t s (clean ms)) (determine-target tx t n m)
    ∙ poll-target tx t (max n m) ms
    ∙ ap (target tx t) (sym (max_assoc n m (highest ms)))

target-zero : (tx : Option ℕ) (t : Thresholds) → target tx t 0 ≡ detected
unfolding compute_target_state
target-zero tx t = ground arith

abbrev pub suspicious : Option ℕ → Sighting
suspicious latest = record { latest = latest; is_suspicious = true }

-- A suspicious sighting fails a payment that is not final.
abbrev pub after_suspicion : State → State
after_suspicion s = if is_terminal s then s else failed

suspicious-determine :
    (tx : Option ℕ) (t : Thresholds) (s : State) (latest : Option ℕ)
    → determine tx t s (suspicious latest) ≡ after_suspicion s
unfolding determine
suspicious-determine tx t s latest = ground arith

after_suspicion-terminal : (s : State) → is_terminal (after_suspicion s) ≡ true
after_suspicion-terminal s = ground arith

suspicious-poll :
    (tx : Option ℕ) (t : Thresholds) (s : State) (latest : Option ℕ) (rest : List Sighting)
    → poll tx t s (suspicious latest ∷ rest) ≡ after_suspicion s
unfolding poll
suspicious-poll tx t s latest rest =
    ap (λ x. poll tx t x rest) (suspicious-determine tx t s latest)
    ∙ terminal-poll tx t (after_suspicion s) rest (after_suspicion-terminal s)

-- A call on DETECTED alone.
fresh-determine :
    (tx : Option ℕ) (t : Thresholds) (n : ℕ)
    → determine tx t detected (record { latest = some n; is_suspicious = false }) ≡ target tx t n
unfolding determine
fresh-determine tx t n = ground arith

-- What calls of `determineConfirmationState` come to, for any thresholds. When the first is made on
-- DETECTED, each later one on the state that the call before has resolved, and none is
-- suspicious, they end in the state that the highest of the ledgers alone implies, whatever the
-- order, repetition or lag of the ledgers. A suspicious call after them, and any calls after
-- that, leave FAILED, or FINALIZED where that had been reached. A call on DETECTED that is not
-- suspicious, which is what both callers make for such a payment each time, ends in the state
-- that its own ledger implies.
pub poll-eq-target :
    (tx : Option ℕ) (t : Thresholds) (ns : List ℕ) (latest : Option ℕ) (rest : List Sighting)
    → (n : ℕ)
    → (poll tx t detected (clean ns) ≡ target tx t (highest ns))
      × (poll tx t (poll tx t detected (clean ns)) (suspicious latest ∷ rest)
          ≡ after_suspicion (target tx t (highest ns)))
      × (determine tx t detected (record { latest = some n; is_suspicious = false })
          ≡ target tx t n)
poll-eq-target tx t ns latest rest n =
    let ends : poll tx t detected (clean ns) ≡ target tx t (highest ns) =
      ap (λ s. poll tx t s (clean ns)) (sym (target-zero tx t))
      ∙ poll-target tx t 0 ns
      ∙ ap (target tx t) (omega arith) in
    (ends, suspicious-poll tx t _ latest rest ∙ ap after_suspicion ends, fresh-determine tx t n)
