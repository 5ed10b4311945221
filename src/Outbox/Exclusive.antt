-- ===== src/Outbox/Exclusive.antt =====
-- No two dispatches of an event are within their leases at a time
-- (backend/src/services/outboxDispatcher.js).
use mathlib.Core.Path.{subst}
use stellar_edu_pay.Common.{
  ℕ, ◌≤◌, ◌≡◌, ◌≢◌, refl, sym, ◌∙◌, Bool, true, false, not, ◌||◌, List, [], ◌∷◌, Option, none, some,
  ◌==◌, if◌then◌else◌, All, ltb, arith, Bool-cases, inl, inr,
}
use stellar_edu_pay.Outbox.{
  processing, Event, Config, recover, is_eligible, claimed, add_to_set, pending_listeners,
}
use stellar_edu_pay.Outbox.Deliveries.{
  Missing, AllDistinct, contains-outcome, Missing-same, Missing-outcome, pending-AllDistinct,
  pending-Missing,
}
use stellar_edu_pay.Outbox.Shared.{
  Dispatch, Shared, with_dispatch, Step, claims, ends, crashes, calls, recovers, begun, claim_if,
  call_next, call_if, end_next, end_if, step, Within, IsLeased,
}
use stellar_edu_pay.Outbox.Leases.{
  Holds, IsExclusive, no_dispatch, some_inj, AloneIs, at_own, at_other, sole-IsExclusive, alone_by,
}

-- An event that may be claimed is held by none.
eligible_pending : (now : ℕ) (e : Event) → is_eligible now e ≡ true → e.status ≢ processing
unfolding is_eligible
eligible_pending now e h p = ground arith

alone_claiming :
    (now i : ℕ) (s : Shared) → IsExclusive now s → is_eligible now s.doc ≡ true → AloneIs now i s
alone_claiming now i s x h j d n found l = eligible_pending now s.doc h (x.held j d found l).is_held

module _ (cfg : Config) (listeners : List ℕ) (distinct : AllDistinct listeners) where
  begun-Holds : (i now : ℕ) (e : Event) → Holds (begun cfg listeners i now e) (claimed cfg i now e)
  unfolding claimed pending_listeners
  begun-Holds i now e = record {
    is_held = refl;
    until = refl;
    distinct = (pending-AllDistinct e.delivered_to listeners distinct).0;
    undelivered = pending-Missing e.delivered_to listeners;
  }

  claim-IsExclusive :
      (i now : ℕ) (o : Option Dispatch) (s : Shared)
      → IsExclusive now s
      → IsExclusive now (claim_if cfg listeners i now o s)
  claim-IsExclusive i now (some d) s x = x
  claim-IsExclusive i now none s x = elim (Bool-cases (is_eligible now s.doc)) [
    | inl y ↦ simp y (
        sole-IsExclusive now i _ _ s (alone_claiming now i s x y) (λ d e.
          subst (λ (f : Dispatch). Holds f (claimed cfg i now s.doc)) (some_inj e)
            (begun-Holds i now s.doc)))
    | inr y ↦ simp y x
  ]

recorded_lock :
    (n : ℕ) (e : Event) (b : Bool)
    → ((if b then add_to_set n e else e).status ≡ e.status)
      × ((if b then add_to_set n e else e).locked_until ≡ e.locked_until)
unfolding add_to_set
recorded_lock n e b = ground arith

called-Holds :
    (n : ℕ) (names : List ℕ) (b : Bool) (d : Dispatch) (doc : Event)
    → d.waiting ≡ n ∷ names
    → Holds d doc
    → Holds
        (record d { waiting = names; failed = d.failed || not b })
        (if b then add_to_set n doc else doc)
called-Holds n names b d doc w h =
    let dist : AllDistinct (n ∷ names) = subst AllDistinct w h.distinct in
    let miss : All (Missing doc.delivered_to) (n ∷ names) =
      subst (All (Missing doc.delivered_to)) w h.undelivered in
    let after : Event = if b then add_to_set n doc else doc in
    let same = contains-outcome n doc b miss.0 in
    record {
      is_held = (recorded_lock n doc b).0 ∙ h.is_held;
      until = (recorded_lock n doc b).1 ∙ h.until;
      distinct = dist.1;
      undelivered =
          Missing-same (if b then n ∷ doc.delivered_to else doc.delivered_to) after.delivered_to
            names (λ m. sym (same m)) (Missing-outcome n doc.delivered_to names b dist.0 miss.1);
    }

recover-held :
    (now : ℕ) (d : Dispatch) (doc : Event)
    → now ≤ d.event.locked_until
    → Holds d doc
    → recover now doc ≡ doc
unfolding recover
recover-held now d doc l h =
    let kept : ltb doc.locked_until now ≡ false = ground (arith, h.until, l) in
    simp (h.is_held, kept) refl

recover-IsExclusive :
    (now : ℕ) (s : Shared)
    → IsExclusive now s
    → IsExclusive now (record s { doc = recover now s.doc })
recover-IsExclusive now s x = record {
  held = λ i d found l.
      subst (Holds d) (sym (recover-held now d s.doc l (x.held i d found l))) (x.held i d found l);
  alone = x.alone;
}

crash-IsExclusive :
    (now i : ℕ) (s : Shared) → IsExclusive now s → IsExclusive now (with_dispatch i none s.doc s)
crash-IsExclusive now i s x = record {
  held = λ j d found l. x.held j d (still j d found) l;
  alone = λ j k d e f l g n. x.alone j k d e (still j d f) l (still k e g) n;
}
  where
    still :
        (j : ℕ) (d : Dispatch)
        → (with_dispatch i none s.doc s).dispatches j ≡ some d
        → s.dispatches j ≡ some d
    still j d found = elim (Bool-cases (j == i)) [
      | inl own ↦ absurd (no_dispatch (sym (at_own i j none s.doc s own) ∙ found))
      | inr other ↦ sym (at_other i j none s.doc s other) ∙ found
    ]

module _ (cfg : Config) (listeners : List ℕ) where
  call_next-IsExclusive :
      (now i : ℕ) (b : Bool) (d : Dispatch) (w : List ℕ) (s : Shared)
      → d.waiting ≡ w
      → s.dispatches i ≡ some d
      → now ≤ d.event.locked_until
      → IsExclusive now s
      → IsExclusive now (call_next cfg listeners i b d w s).1
  call_next-IsExclusive now i b d [] s e found l x = x
  call_next-IsExclusive now i b d (n ∷ names) s e found l x =
      sole-IsExclusive now i _ _ s (alone_by now i d s x found l) (λ f same.
        subst (λ (g : Dispatch). Holds g (if b then add_to_set n s.doc else s.doc)) (some_inj same)
          (called-Holds n names b d s.doc e (x.held i d found l)))

  call-IsExclusive :
      (now i : ℕ) (b : Bool) (o : Option Dispatch) (s : Shared)
      → s.dispatches i ≡ o
      → Within now o
      → IsExclusive now s
      → IsExclusive now (call_if cfg listeners i b o s).1
  call-IsExclusive now i b none s found l x = x
  call-IsExclusive now i b (some d) s found l x =
      call_next-IsExclusive now i b d d.waiting s refl found l x

  end_next-IsExclusive :
      (now i : ℕ) (d : Dispatch) (w : List ℕ) (s : Shared)
      → s.dispatches i ≡ some d
      → now ≤ d.event.locked_until
      → IsExclusive now s
      → IsExclusive now (end_next cfg listeners i now d w s)
  end_next-IsExclusive now i d [] s found l x =
      sole-IsExclusive now i none _ s (alone_by now i d s x found l)
        (λ f same. absurd (no_dispatch same))
  end_next-IsExclusive now i d (n ∷ names) s found l x = x

  end-IsExclusive :
      (now i : ℕ) (o : Option Dispatch) (s : Shared)
      → s.dispatches i ≡ o
      → Within now o
      → IsExclusive now s
      → IsExclusive now (end_if cfg listeners i now o s)
  end-IsExclusive now i none s found l x = x
  end-IsExclusive now i (some d) s found l x = end_next-IsExclusive now i d d.waiting s found l x

  pub step-IsExclusive :
      (now : ℕ) (y : Step) (s : Shared)
      → AllDistinct listeners
      → IsLeased now y s
      → IsExclusive now s
      → IsExclusive now (step cfg listeners now y s).1
  unfolding step
  step-IsExclusive now (claims i) s d l x =
      claim-IsExclusive cfg listeners d i now (s.dispatches i) s x
  step-IsExclusive now (calls i b) s d l x = call-IsExclusive now i b (s.dispatches i) s refl l x
  step-IsExclusive now (ends i) s d l x = end-IsExclusive now i (s.dispatches i) s refl l x
  step-IsExclusive now (crashes i) s d l x = crash-IsExclusive now i s x
  step-IsExclusive now recovers s d l x = recover-IsExclusive now s x
