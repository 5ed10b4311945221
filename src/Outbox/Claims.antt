-- ===== src/Outbox/Claims.antt =====
-- A claimed event is no other dispatcher's for as long as its lease lasts
-- (backend/src/services/outboxDispatcher.js).
use stellar_edu_pay.Common.{
  ℕ, ◌+◌, ◌≤◌, ◌≡◌, ◌≢◌, refl, sym, ap, ◌∙◌, Bool, true, false, List, [], ◌∷◌, Option, none, some,
  All, leb, ◌==◌, if◌then◌else◌, arith, Bool-cases, inl, inr,
}
use mathlib.Core.Path.{subst}
use stellar_edu_pay.Outbox.{
  older, Event, Config, recover, recover_stale_leases, is_eligible, claimed, oldest_eligible,
  update_one, claim_found, claim_next_event,
}

some_inj : {a b : Event} → some a ≡ some b → a ≡ b
some_inj h = ground arith

older-All :
    (P : Event → Type 0) (d : Event) (o : Option Event) {e : Event}
    → older d o ≡ some e
    → P d
    → ((f : Event) → o ≡ some f → P f)
    → P e
older-All P d none h p q = subst P (some_inj h) p
older-All P d (some f) h p q = elim (Bool-cases (leb d.created_at f.created_at)) [
  | inl first ↦ subst P (some_inj (rw first at h)) p
  | inr second ↦ subst P (some_inj (rw second at h)) (q f refl)
]

-- What holds of every eligible document holds of the one that is chosen.
chosen-All :
    (P : Event → Type 0) (now : ℕ) (docs : List Event)
    → All (λ d. is_eligible now d ≡ true → P d) docs
    → (e : Event) → oldest_eligible now docs ≡ some e
    → P e
unfolding oldest_eligible
chosen-All P now [] a e h = absurd (ground arith)
chosen-All P now (d ∷ docs) a e h = elim (Bool-cases (is_eligible now d)) [
  | inl yes_ ↦
      older-All P d (oldest_eligible now docs) (rw yes_ at h) (a.0 yes_) (chosen-All P now docs a.1)
  | inr no_ ↦ chosen-All P now docs a.1 e (rw no_ at h)
]

claimed-unavailable :
    (cfg : Config) (instance_id now later : ℕ) (e : Event)
    → later ≤ now + cfg.lease_duration
    → is_eligible later (recover later (claimed cfg instance_id now e)) ≡ false
unfolding is_eligible recover claimed
claimed-unavailable cfg instance_id now later e h = ground arith

recover-id : (now : ℕ) (e : Event) → (recover now e).id ≡ e.id
unfolding recover
recover-id now e = ground arith

clash : {b : Bool} → b ≡ false → b ≡ true → ⊥
clash e f = ground arith

apart : {m n : ℕ} → (m == n) ≡ false → m ≡ n → ⊥
apart e f = ground arith

other :
    (cfg : Config) (instance_id now later id : ℕ) (d : Event)
    → later ≤ now + cfg.lease_duration
    → let after = recover later (if d.id == id then claimed cfg instance_id now d else d) in
      is_eligible later after ≡ true → after.id ≢ id
other cfg instance_id now later id d h = elim (Bool-cases (d.id == id)) [
  | inl same ↦ rw same (λ k. absurd (clash (claimed-unavailable cfg instance_id now later d h) k))
  | inr differs ↦ rw differs (λ k e. apart differs (sym (recover-id later d) ∙ e))
]

-- No document with the id of the claimed one is eligible.
others :
    (cfg : Config) (instance_id now later id : ℕ) (docs : List Event)
    → later ≤ now + cfg.lease_duration
    → All
        (λ d. is_eligible later d ≡ true → d.id ≢ id)
        (recover_stale_leases later (update_one id (claimed cfg instance_id now) docs))
unfolding recover_stale_leases update_one
others cfg instance_id now later id [] h = _
others cfg instance_id now later id (d ∷ docs) h =
    (other cfg instance_id now later id d h, others cfg instance_id now later id docs h)

claimed_id :
    (cfg : Config) (instance_id now : ℕ) (docs : List Event) (o : Option Event) {e : Event}
    → (claim_found cfg instance_id now docs o).0 ≡ some e
    → (d : Event) × (o ≡ some d) × (e.id ≡ d.id)
unfolding claimed
claimed_id cfg instance_id now docs none h = absurd (ground arith)
claimed_id cfg instance_id now docs (some d) h =
    (d, refl, ap (λ (x : Event). x.id) (sym (some_inj h)))

excludes_found :
    (cfg : Config) (first second now later : ℕ) (docs : List Event) (o : Option Event) {e f : Event}
    → (claim_found cfg first now docs o).0 ≡ some e
    → later ≤ now + cfg.lease_duration
    → (claim_next_event cfg second later
        (recover_stale_leases later (claim_found cfg first now docs o).1)).0
      ≡ some f
    → f.id ≢ e.id
unfolding claim_next_event claimed
excludes_found cfg first second now later docs none h l k = absurd (ground arith)
excludes_found cfg first second now later docs (some d) h l k =
    let held : List Event =
      recover_stale_leases later (update_one d.id (claimed cfg first now) docs) in
    let e_id = ap (λ (x : Event). x.id) (sym (some_inj h)) in
    let (g, found, f_id) = claimed_id cfg second later held (oldest_eligible later held) k in
    let differs : g.id ≢ d.id =
      chosen-All (λ x. x.id ≢ d.id) later held (others cfg first now later d.id docs l) g found in
    λ same. differs (sym f_id ∙ same ∙ e_id)

-- An event that one dispatcher has claimed is claimed by no other before its lease ends: whatever
-- `claimNextEvent` returns after a recovery at a time within the lease is another event.
pub claim_excludes :
    (cfg : Config) (first second now later : ℕ) (docs : List Event) {e f : Event}
    → (claim_next_event cfg first now docs).0 ≡ some e
    → later ≤ now + cfg.lease_duration
    → (claim_next_event cfg second later
        (recover_stale_leases later (claim_next_event cfg first now docs).1)).0
      ≡ some f
    → f.id ≢ e.id
unfolding claim_next_event
claim_excludes cfg first second now later docs h l k =
    excludes_found cfg first second now later docs (oldest_eligible now docs) h l k
