-- ===== src/Outbox/Leases.antt =====
-- Dispatches within their leases, and the document that they hold
-- (backend/src/services/outboxDispatcher.js).
use stellar_edu_pay.Common.{
  ℕ, ◌≤◌, ◌≡◌, ◌≢◌, refl, sym, ◌∙◌, true, false, Option, none, some, ◌==◌, All, arith, Bool-cases,
  inl, inr,
}
use stellar_edu_pay.Outbox.{processing, Event}
use stellar_edu_pay.Outbox.Deliveries.{Missing, AllDistinct}
use stellar_edu_pay.Outbox.Shared.{Dispatch, Shared, with_dispatch}

-- The document of a dispatch within its lease.
pub record Holds (d : Dispatch) (doc : Event) : Type 0 where
  pub is_held : doc.status ≡ processing
  pub until : doc.locked_until ≡ d.event.locked_until
  pub distinct : AllDistinct d.waiting
  pub undelivered : All (Missing doc.delivered_to) d.waiting

pub record IsExclusive (now : ℕ) (s : Shared) : Type 0 where
  pub held :
      (i : ℕ) (d : Dispatch) → s.dispatches i ≡ some d → now ≤ d.event.locked_until → Holds d s.doc
  pub alone :
      (i j : ℕ) (d e : Dispatch)
      → s.dispatches i ≡ some d
      → now ≤ d.event.locked_until
      → s.dispatches j ≡ some e
      → now ≤ e.event.locked_until
      → i ≡ j

pub later-IsExclusive :
    (before now : ℕ) (s : Shared) → before ≤ now → IsExclusive before s → IsExclusive now s
later-IsExclusive before now s h x = record {
  held = λ i d found l. x.held i d found (omega (arith, h, l));
  alone = λ i j d e f l g k. x.alone i j d e f (omega (arith, h, l)) g (omega (arith, h, k));
}

pub no_dispatch : {d : Dispatch} → none ≡ some d → ⊥
no_dispatch h = ground arith

pub some_inj : {a b : Dispatch} → some a ≡ some b → a ≡ b
some_inj h = ground arith

-- All other dispatches are beyond their leases.
abbrev pub AloneIs : ℕ → ℕ → Shared → Type 0
AloneIs now i s =
    (j : ℕ) (d : Dispatch) → j ≢ i → s.dispatches j ≡ some d → now ≤ d.event.locked_until → ⊥

pub at_own :
    (i j : ℕ) (o : Option Dispatch) (doc : Event) (s : Shared)
    → (j == i) ≡ true
    → (with_dispatch i o doc s).dispatches j ≡ o
at_own i j o doc s e = rw e refl

pub at_other :
    (i j : ℕ) (o : Option Dispatch) (doc : Event) (s : Shared)
    → (j == i) ≡ false
    → (with_dispatch i o doc s).dispatches j ≡ s.dispatches j
at_other i j o doc s e = rw e refl

pub sole-IsExclusive :
    (now i : ℕ) (o : Option Dispatch) (doc : Event) (s : Shared)
    → AloneIs now i s
    → ((d : Dispatch) → o ≡ some d → Holds d doc)
    → IsExclusive now (with_dispatch i o doc s)
sole-IsExclusive now i o doc s gone h = record {
  held = λ j d found l. elim (Bool-cases (j == i)) [
    | inl own ↦ h d (sym (at_own i j o doc s own) ∙ found)
    | inr other ↦
        absurd (gone j d (ground (arith, other)) (sym (at_other i j o doc s other) ∙ found) l)
  ];
  alone = λ j k d e f l g n. is_it j d f l ∙ sym (is_it k e g n);
}
  where
    is_it :
        (j : ℕ) (d : Dispatch)
        → (with_dispatch i o doc s).dispatches j ≡ some d
        → now ≤ d.event.locked_until
        → j ≡ i
    is_it j d found l = elim (Bool-cases (j == i)) [
      | inl own ↦ ground (arith, own)
      | inr other ↦
          absurd (gone j d (ground (arith, other)) (sym (at_other i j o doc s other) ∙ found) l)
    ]

-- A dispatch within its lease is alone.
pub alone_by :
    (now i : ℕ) (d : Dispatch) (s : Shared)
    → IsExclusive now s
    → s.dispatches i ≡ some d
    → now ≤ d.event.locked_until
    → AloneIs now i s
alone_by now i d s x found l j e n g k = n (x.alone j i e d g k found l)
