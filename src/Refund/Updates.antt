-- ===== src/Refund/Updates.antt =====
-- `updateRefundStatus` of backend/src/services/refundService.js.
use mathlib.Core.List.{Memᴰ}
use stellar_edu_pay.Common.{
  ℕ, true, ◌≡◌, refl, sym, ap, ◌∙◌, [], ◌∷◌, Option, none, some, arith, any, Option-cases, inl, inr,
}
use stellar_edu_pay.Text.{Text}
use stellar_edu_pay.Refund.Data.{
  RefundStatus, same_status, Refund, ok, status_changed, refund_status_transitions,
}
use stellar_edu_pay.Refund.Store.{Mongo, World, write, write_all, save_refund, create_event}
use stellar_edu_pay.Refund.Plans.{Plan, is_refund_in, update_checks, update_plan, moved}
use stellar_edu_pay.Refund.Service.{Turn, update_status}
use stellar_edu_pay.Refund.Success.{read_then_lock_ok}
use stellar_edu_pay.Refund.Keeping.{read_then_lock-Keeps}

module _ (m : Mongo) where
  update_plan_inv :
      (now id : ℕ) (s : RefundStatus) (tx why : Text) (school : Option ℕ) (w : World) {p : Plan}
      → update_plan m now id s tx why school w ≡ ok p
      → (old : Refund) × (m.find_one Refund (is_refund_in m now id school) w.refunds ≡ some old)
        × (any (same_status s) (refund_status_transitions old.status) ≡ true)
        × (p ≡ (
          moved m now s tx why old,
          save_refund (moved m now s tx why old)
              ∷ create_event (status_changed id old.status s)
              ∷ [],
        ))
  unfolding update_plan update_checks
  update_plan_inv now id s tx why school w h =
      elim (Option-cases (m.find_one Refund (is_refund_in m now id school) w.refunds)) [
        | inl absent ↦ ground arith
        | inr (old, found) ↦ (old, found, ground arith, ground arith)
      ]

  is_refund_in-id :
      (now id : ℕ) (school : Option ℕ) (r : Refund)
      → is_refund_in m now id school r ≡ true
      → r.id ≡ id
  unfolding is_refund_in
  is_refund_in-id now id none r h = ground arith
  is_refund_in-id now id (some school) r h = ground arith

  -- An update that succeeds moves one stored refund, with that id, to a status that the table
  -- lists after its own, and changes only the status and the fields of a confirmation or failure.
  -- Whatever the outcome, the payments stay as they were.
  update_status_checked :
      (lock_key : ℕ → ℕ → ℕ) (t : Turn) (id : ℕ) (s : RefundStatus) (tx why : Text)
      (school : Option ℕ) (w : World)
      → let o = update_status m lock_key t id s tx why school w in
        ((r : Refund)
          → o.0 ≡ ok r
          → (old : Refund) × Memᴰ old w.refunds
            × (old.id ≡ id)
            × (any (same_status s) (refund_status_transitions old.status) ≡ true)
            × (r ≡ moved m t.now s tx why old))
        × (o.1.payments ≡ w.payments)
  unfolding update_status write_all write
  update_status_checked lock_key t id s tx why school w = (
    λ r h.
        let (read, locks, p, _, e, same) =
          read_then_lock_ok m lock_key t (update_checks m t.now id school w)
            (λ x w'. update_plan m t.now id s tx why school w') w h in
        let (old, found, listed, made) =
          update_plan_inv t.now id s tx why school (record w { locks = locks }) e in
        let (its, stored) =
          m.find_one_sound Refund (is_refund_in m t.now id school) w.refunds old found in
        (
          old,
          stored,
          is_refund_in-id t.now id school old its,
          listed,
          sym same ∙ ap (λ (x : Plan). x.0) made,
        ),
    read_then_lock-Keeps m lock_key (λ ps rs. ps ≡ w.payments) t (update_checks m t.now id school w)
        (λ x w'. update_plan m t.now id s tx why school w') w refl
        λ read locks c p e.
          let (old, _, _, made) =
            update_plan_inv t.now id s tx why school (record w { locks = locks }) e in
          rw made refl,
  )
