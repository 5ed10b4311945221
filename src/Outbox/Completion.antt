-- ===== src/Outbox/Completion.antt =====
-- A completed event has reached every listener (backend/src/services/outboxDispatcher.js).
use stellar_edu_pay.Common.{
  ℕ, suc, ◌≡◌, refl, sym, ◌∙◌, Bool, true, false, ◌&&◌, List, [], ◌∷◌, All, leb, ltb, if◌then◌else◌,
  arith, Bool-cases, inl, inr,
}
use stellar_edu_pay.Outbox.{
  done, completed, processing, is_processing, Event, Config, recover, is_eligible, claimed,
  contains, Call, add_to_set, deliver, pending_listeners, settle, some_failed, dispatch_to,
  dispatch_event,
}
use stellar_edu_pay.Outbox.Histories.{
  Happening, attempted, cut_short, recovered, attempt, attempt_cut, happen, run,
}
use stellar_edu_pay.Outbox.Deliveries.{contains-snoc}

-- Every listener has the event.
abbrev pub HasReached : List ℕ → Event → Type 0
HasReached listeners e = All (λ n. contains e.delivered_to n ≡ true) listeners

abbrev pub IsDelivered : List ℕ → Event → Type 0
IsDelivered listeners e = e.status ≡ completed → HasReached listeners e

add_to_set-keeps :
    (n m : ℕ) (e : Event)
    → contains e.delivered_to m ≡ true
    → contains (add_to_set n e).delivered_to m ≡ true
unfolding add_to_set
add_to_set-keeps n m e h = elim (Bool-cases (contains e.delivered_to n)) [
  | inl y ↦ rw y h
  | inr y ↦ rw y (ground (arith, contains-snoc e.delivered_to n m, h))
]

add_to_set-has : (n : ℕ) (e : Event) → contains (add_to_set n e).delivered_to n ≡ true
unfolding add_to_set
add_to_set-has n e = elim (Bool-cases (contains e.delivered_to n)) [
  | inl y ↦ rw y y
  | inr y ↦ rw y (ground (arith, contains-snoc e.delivered_to n n))
]

add_to_set-status : (n : ℕ) (e : Event) → (add_to_set n e).status ≡ e.status
unfolding add_to_set
add_to_set-status n e = ground arith

recorded-keeps :
    (n m : ℕ) (e : Event) (b : Bool)
    → contains e.delivered_to m ≡ true
    → contains (if b then add_to_set n e else e).delivered_to m ≡ true
recorded-keeps n m e true h = add_to_set-keeps n m e h
recorded-keeps n m e false h = h

recorded-status :
    (n : ℕ) (e : Event) (b : Bool) → (if b then add_to_set n e else e).status ≡ e.status
recorded-status n e true = add_to_set-status n e
recorded-status n e false = refl

deliver-keeps :
    (outcome : ℕ → Bool) (names : List ℕ) (e : Event) (m : ℕ)
    → contains e.delivered_to m ≡ true
    → contains (deliver outcome names e).0.delivered_to m ≡ true
unfolding deliver
deliver-keeps outcome [] e m h = h
deliver-keeps outcome (n ∷ names) e m h =
    deliver-keeps outcome names _ m (recorded-keeps n m e (outcome n) h)

deliver-status :
    (outcome : ℕ → Bool) (names : List ℕ) (e : Event)
    → (deliver outcome names e).0.status ≡ e.status
unfolding deliver
deliver-status outcome [] e = refl
deliver-status outcome (n ∷ names) e =
    deliver-status outcome names _ ∙ recorded-status n e (outcome n)

-- Calls of which none failed have all been recorded.
deliver-reaches :
    (outcome : ℕ → Bool) (names : List ℕ) (e : Event)
    → some_failed (deliver outcome names e).1 ≡ false
    → HasReached names (deliver outcome names e).0
unfolding deliver
deliver-reaches outcome [] e h = _
deliver-reaches outcome (n ∷ names) e h = elim (Bool-cases (outcome n)) [
  | inl y ↦ (
    deliver-keeps outcome names _ n (rw y (add_to_set-has n e)),
    deliver-reaches outcome names _ (ground arith),
  )
  | inr y ↦ absurd (ground arith)
]

pending-reaches :
    (e after : Event) (listeners : List ℕ)
    → ((m : ℕ) → contains e.delivered_to m ≡ true → contains after.delivered_to m ≡ true)
    → HasReached (pending_listeners listeners e) after
    → HasReached listeners after
unfolding pending_listeners
pending-reaches e after [] keeps r = _
pending-reaches e after (n ∷ listeners) keeps r = elim (Bool-cases (contains e.delivered_to n)) [
  | inl y ↦ (keeps n y, pending-reaches e after listeners keeps (rw y at r))
  | inr y ↦ let r' = rw y at r in (r'.0, pending-reaches e after listeners keeps r'.1)
]

settle-IsDelivered :
    (cfg : Config) (now retry_count : ℕ) (failed : Bool) (listeners : List ℕ) (e : Event)
    → (failed ≡ false → HasReached listeners e)
    → IsDelivered listeners (settle cfg now retry_count failed e)
unfolding settle
settle-IsDelivered cfg now retry_count false listeners e h = λ c. h refl
settle-IsDelivered cfg now retry_count true listeners e h =
    elim (Bool-cases (leb cfg.max_retries (suc retry_count))) [
      | inl y ↦ rw y (λ c. absurd (ground arith))
      | inr y ↦ rw y (λ c. absurd (ground arith))
    ]

dispatch_to-IsDelivered :
    (cfg : Config) (now : ℕ) (listeners : List ℕ) (outcome : ℕ → Bool) (waiting : List ℕ)
    → (retry_count : ℕ) (doc : Event)
    → ((after : Event)
        → ((m : ℕ) → contains doc.delivered_to m ≡ true → contains after.delivered_to m ≡ true)
        → HasReached waiting after
        → HasReached listeners after)
    → IsDelivered listeners (dispatch_to cfg now listeners outcome waiting retry_count doc).0
dispatch_to-IsDelivered cfg now [] outcome waiting retry_count doc all = λ c. _
dispatch_to-IsDelivered cfg now (l ∷ ls) outcome [] retry_count doc all =
    λ c. all (done doc) (λ m h. h) _
dispatch_to-IsDelivered cfg now (l ∷ ls) outcome (n ∷ names) retry_count doc all =
    let r : Event × List Call = deliver outcome (n ∷ names) doc in
    settle-IsDelivered cfg now retry_count (some_failed r.1) (l ∷ ls) r.0 (λ none_failed.
      all r.0 (deliver-keeps outcome (n ∷ names) doc)
        (deliver-reaches outcome (n ∷ names) doc none_failed))

not_completed : processing ≡ completed → ⊥
not_completed h = ground arith

module _ (cfg : Config) (instance_id : ℕ) (listeners : List ℕ) where
  attempt-IsDelivered :
      (now : ℕ) (outcome : ℕ → Bool) (e : Event)
      → IsDelivered listeners e
      → IsDelivered listeners (attempt cfg instance_id listeners now outcome e).0
  unfolding attempt dispatch_event
  attempt-IsDelivered now outcome e d = elim (Bool-cases (is_eligible now e)) [
    | inl y ↦ rw y (
        dispatch_to-IsDelivered cfg now listeners outcome _ _ (claimed cfg instance_id now e)
          (λ after keeps r.
            pending-reaches (claimed cfg instance_id now e) after listeners keeps r))
    | inr y ↦ rw y d
  ]

  attempt_cut-IsDelivered :
      (now calls : ℕ) (outcome : ℕ → Bool) (e : Event)
      → IsDelivered listeners e
      → IsDelivered listeners (attempt_cut cfg instance_id listeners now calls outcome e).0
  unfolding attempt_cut claimed
  attempt_cut-IsDelivered now calls outcome e d = elim (Bool-cases (is_eligible now e)) [
    | inl y ↦ rw y (λ c. absurd (not_completed (sym (deliver-status outcome _ _) ∙ c)))
    | inr y ↦ rw y d
  ]

  recover-IsDelivered :
      (now : ℕ) (e : Event) → IsDelivered listeners e → IsDelivered listeners (recover now e)
  unfolding recover
  recover-IsDelivered now e d =
      elim (Bool-cases (is_processing e.status && ltb e.locked_until now)) [
        | inl y ↦ rw y (λ c. absurd (ground arith))
        | inr y ↦ rw y d
      ]

  happen-IsDelivered :
      (h : Happening) (e : Event)
      → IsDelivered listeners e
      → IsDelivered listeners (happen cfg instance_id listeners h e).0
  unfolding happen
  happen-IsDelivered (attempted now outcome) e d = attempt-IsDelivered now outcome e d
  happen-IsDelivered (cut_short now calls outcome) e d =
      attempt_cut-IsDelivered now calls outcome e d
  happen-IsDelivered (recovered now) e d = recover-IsDelivered now e d

-- An event is completed only when every listener of its type is in `deliveredTo`: through any
-- attempts, attempts that are cut short after any of their calls, and recoveries, at any times and
-- with any outcomes, while the listeners of the type stay the same, this remains so.
pub run-IsDelivered :
    (cfg : Config) (instance_id : ℕ) (listeners : List ℕ) (hs : List Happening) (e : Event)
    → IsDelivered listeners e
    → IsDelivered listeners (run cfg instance_id listeners hs e).0
unfolding run
run-IsDelivered cfg instance_id listeners [] e d = d
run-IsDelivered cfg instance_id listeners (h ∷ hs) e d =
    run-IsDelivered cfg instance_id listeners hs _
      (happen-IsDelivered cfg instance_id listeners h e d)
