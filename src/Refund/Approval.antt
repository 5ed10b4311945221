-- ===== src/Refund/Approval.antt =====
-- The two-person rule of backend/src/services/refundService.js.
use mathlib.Core.List.{Memᴰ}
use stellar_edu_pay.Common.{
  ℕ, Bool, true, false, ◌≡◌, refl, List, [], ◌∷◌, map, some, arith, All, All-append, ◌==◌,
  if◌then◌else◌, inl, inr, Bool-cases,
}
use stellar_edu_pay.Text.{Text}
use stellar_edu_pay.Refund.Data.{
  RefundStatus, pending, submitted, confirmed, UserId, is_known, same_user, Refund, Paid,
}
use stellar_edu_pay.Refund.Store.{Mongo, World, write, write_all}
use stellar_edu_pay.Refund.Plans.{
  Request, new_refund, is_refund, initiate_plan, approve_plan, reject_checks, reject_plan,
  complete_checks, complete_plan,
}
use stellar_edu_pay.Refund.Service.{
  Turn, Call, ask, agree, refuse, finish, initiate, initiate_if, approve, reject, complete, apply,
  run,
}
use stellar_edu_pay.Refund.Keeping.{transact-Keeps, under_lock-Keeps, read_then_lock-Keeps}
use stellar_edu_pay.Refund.Inversion.{
  approve_plan_inv, reject_checks_inv, complete_checks_inv, reject_plan_inv, complete_plan_inv,
  initiate_plan_inv,
}

-- A refund that may be paid out, or has been.
abbrev pub is_approved : RefundStatus → Bool
is_approved pending = true
is_approved submitted = true
is_approved confirmed = true
is_approved _ = false

-- The two persons of a refund are known, and differ, once it may be paid out.
pub record IsTwoPerson (r : Refund) : Type 0 where
  pub initiator_known : is_known r.initiated_by ≡ true
  pub approver_known : is_approved r.status ≡ true → is_known r.approved_by ≡ true
  pub distinct : is_approved r.status ≡ true → same_user r.initiated_by r.approved_by ≡ false

All-mem {ℓ} : {A : Type 0} (P : A → Type ℓ) (xs : List A) {x : A} → All P xs → Memᴰ x xs → P x
All-mem P [] h mem = elim mem [ ]
All-mem P (x ∷ xs) h (Memᴰ.head e) = rw e h.0
All-mem P (x ∷ xs) h (Memᴰ.tail mem) = All-mem P xs h.1 mem

All-replace :
    (P : Refund → Type 0) (r : Refund) (rs : List Refund)
    → P r
    → All P rs
    → All P (map (λ x. if x.id == r.id then r else x) rs)
All-replace P r [] p h = tt
All-replace P r (x ∷ rs) p h = elim (Bool-cases (x.id == r.id)) [
  | inl e ↦ (rw e p, All-replace P r rs p h.1)
  | inr e ↦ (rw e h.0, All-replace P r rs p h.1)
]

module _ (m : Mongo) (lock_key : ℕ → ℕ → ℕ) where
  abbrev AllTwoPerson : List Paid → List Refund → Type 0
  AllTwoPerson ps rs = All IsTwoPerson rs

  save-All :
      (r : Refund) (rs : List Refund)
      → IsTwoPerson r
      → All IsTwoPerson rs
      → All IsTwoPerson (m.save Refund (λ x. x.id) r rs)
  save-All r rs p h = rw (m.save_lem Refund (λ x. x.id) r rs) (All-replace IsTwoPerson r rs p h)

  create-All :
      (r : Refund) (rs : List Refund)
      → IsTwoPerson r
      → All IsTwoPerson rs
      → All IsTwoPerson (m.create Refund r rs)
  create-All r rs p h = rw (m.create_lem Refund r rs) (All-append IsTwoPerson rs (r ∷ []) h (p, tt))

  found-IsTwoPerson :
      (p : Refund → Bool) (rs : List Refund) {r : Refund}
      → m.find_one Refund p rs ≡ some r
      → All IsTwoPerson rs
      → IsTwoPerson r
  found-IsTwoPerson p rs {r} e h = All-mem IsTwoPerson rs h (m.find_one_sound Refund p rs r e).1

  initiate_if-Keeps :
      (b : Bool) (t : Turn) (q : Request) (w : World)
      → is_known q.principal ≡ b
      → All IsTwoPerson w.refunds
      → All IsTwoPerson (initiate_if m lock_key b t q w).1.refunds
  unfolding initiate_if write_all write
  initiate_if-Keeps false t q w k h = h
  initiate_if-Keeps true t q w k h =
      under_lock-Keeps m lock_key AllTwoPerson t q.school q.tx (initiate_plan m t.now q) w h
        λ locks p e.
          let (pay, found, _, _, _, made) =
            initiate_plan_inv m t.now (record w { locks = locks }) q e in
          rw made (create-All (new_refund q) w.refunds (ground arith) h)

  initiate-Keeps :
      (t : Turn) (q : Request) (w : World)
      → All IsTwoPerson w.refunds
      → All IsTwoPerson (initiate m lock_key t q w).1.refunds
  unfolding initiate
  initiate-Keeps t q w h = initiate_if-Keeps (is_known q.principal) t q w refl h

  approve-Keeps :
      (t : Turn) (id : ℕ) (u : UserId) (school : ℕ) (w : World)
      → All IsTwoPerson w.refunds
      → All IsTwoPerson (approve m lock_key t id u school w).1.refunds
  unfolding approve write_all write
  approve-Keeps t id u school w h =
      transact-Keeps m lock_key AllTwoPerson t (approve_plan m t.now id u school w) w h λ p e.
        let (r, found, known, status, other, made) = approve_plan_inv m t.now w id u school e in
        let old : IsTwoPerson r = found-IsTwoPerson (is_refund id school) w.refunds found h in
        rw made
          (save-All (record r { status = pending; approved_by = u }) w.refunds (ground arith) h)

  reject-Keeps :
      (t : Turn) (id : ℕ) (u : UserId) (reason : Text) (school : ℕ) (w : World)
      → All IsTwoPerson w.refunds
      → All IsTwoPerson (reject m lock_key t id u reason school w).1.refunds
  unfolding reject write_all write
  reject-Keeps t id u reason school w h =
      read_then_lock-Keeps m lock_key AllTwoPerson t (reject_checks m t.now id u reason school w)
        (λ r w'. reject_plan m t.now r u reason w') w h
        λ r locks c p e.
          let (found, _, _, _) = reject_checks_inv m t.now w id u reason school c in
          let (pay, _, made) = reject_plan_inv m t.now (record w { locks = locks }) r u reason e in
          let old : IsTwoPerson r = found-IsTwoPerson (is_refund id school) w.refunds found h in
          let updated : Refund = record r {
            status = RefundStatus.rejected;
            rejected_by = u;
            rejection_reason = reason;
          } in
          rw made (save-All updated w.refunds (ground arith) h)

  complete-Keeps :
      (t : Turn) (id : ℕ) (tx : Text) (u : UserId) (school : ℕ) (w : World)
      → All IsTwoPerson w.refunds
      → All IsTwoPerson (complete m lock_key t id tx u school w).1.refunds
  unfolding complete write_all write
  complete-Keeps t id tx u school w h =
      read_then_lock-Keeps m lock_key AllTwoPerson t (complete_checks m t.now id tx u school w)
        (λ r w'. complete_plan m t.now r tx w') w h
        λ r locks c p e.
          let (found, _, status) = complete_checks_inv m t.now w id tx u school c in
          let (pay, _, made) = complete_plan_inv m t.now (record w { locks = locks }) r tx e in
          let old : IsTwoPerson r = found-IsTwoPerson (is_refund id school) w.refunds found h in
          let updated : Refund = record r { status = confirmed; refund_tx_hash = tx } in
          rw made (save-All updated w.refunds (ground arith) h)

  apply-Keeps :
      (t : Turn) (c : Call) (w : World)
      → All IsTwoPerson w.refunds
      → All IsTwoPerson (apply m lock_key t c w).refunds
  unfolding apply
  apply-Keeps t (ask q) w h = initiate-Keeps t q w h
  apply-Keeps t (agree id u school) w h = approve-Keeps t id u school w h
  apply-Keeps t (refuse id u reason school) w h = reject-Keeps t id u reason school w h
  apply-Keeps t (finish id tx u school) w h = complete-Keeps t id tx u school w h

  -- Through any requests, approvals, rejections and completions, with any principals, locks and
  -- aborted transactions, every refund that may be paid out or has been was requested by one known
  -- user and approved by another.
  pub two_person :
      (cs : List (Turn × Call)) (w : World)
      → All IsTwoPerson w.refunds
      → All IsTwoPerson (run m lock_key cs w).refunds
  unfolding run
  two_person [] w h = h
  two_person ((t, c) ∷ cs) w h = two_person cs (apply m lock_key t c w) (apply-Keeps t c w h)
