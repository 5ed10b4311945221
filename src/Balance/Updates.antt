-- ===== src/Balance/Updates.antt =====
-- What `updateStudentBalance` of backend/src/utils/studentBalanceUpdater.js stores.
use stellar_edu_pay.Common.{
  ℕ, ◌≡◌, refl, sym, ap, ◌∙◌, Bool, true, false, ◌&&◌, List, [], ◌∷◌, map, Option, none, some,
  arith, ◌==◌,
}
use stellar_edu_pay.Balance.Decimals.{Decimals}
use stellar_edu_pay.Balance.Students.{
  PaymentDoc, FeeCategory, Student, World, StudentBalance, put, classify_student,
  compute_student_balance, update_category, with_balance, sync_current_period_fee,
  update_student_balance, update_found, balance_found,
}

put_same :
    {V : Type 0} (school student : ℕ) (v : V) (held : ℕ → ℕ → Option V)
    → put school student v held school student ≡ some v
put_same school student v held =
    let a : school == school ≡ true = ground arith in
    let b : student == student ≡ true = ground arith in rw (a, b)

module _ (D : Decimals) where
  abbrev pub stored_balance : Student D.Number → StudentBalance D.Number
  stored_balance s = record {
    total_paid = s.total_paid;
    remaining_balance = s.remaining_balance;
    fee_paid = s.fee_paid;
  }

  map-update_category :
      (school student : ℕ) (ps : List (PaymentDoc D.Number)) (fs : List (FeeCategory D.Number))
      → map (update_category D school student ps) (map (update_category D school student ps) fs)
        ≡ map (update_category D school student ps) fs
  unfolding update_category
  map-update_category school student ps [] = refl
  map-update_category school student ps (f ∷ fs) =
      ap (λ rest. update_category D school student ps f ∷ rest)
        (map-update_category school student ps fs)

  with_balance_idem :
      (breakdown : Bool) (school student : ℕ) (ps : List (PaymentDoc D.Number))
      (s : Student D.Number)
      → with_balance D breakdown school student ps (with_balance D breakdown school student ps s)
        ≡ with_balance D breakdown school student ps s
  unfolding with_balance classify_student
  with_balance_idem true school student ps s =
      ap (λ fs. record (with_balance D true school student ps s) { fees = fs })
        (map-update_category school student ps s.fees)
  with_balance_idem false school student ps s = refl

  update_found-agrees :
      (breakdown : Bool) (school student : ℕ) (found : Option (Student D.Number))
      (w : World D.Number) {s : Student D.Number}
      → (update_found D breakdown school student found w).0 ≡ some s
      → let w' = (update_found D breakdown school student found w).1 in
        (w'.students school student ≡ some s)
        × (balance_found D school student (some s) w'.payments ≡ some (stored_balance s))
        × ((update_found D breakdown school student (some s) w').0 ≡ some s)
  unfolding sync_current_period_fee with_balance classify_student
  update_found-agrees breakdown school student none w h = absurd (ground arith)
  update_found-agrees breakdown school student (some old) w {s} h =
      let e : with_balance D breakdown school student w.payments old ≡ s = ground arith in
      rw (sym e) (
        put_same school student _ w.students,
        refl,
        ap some (with_balance_idem breakdown school student w.payments old),
      )

  -- When `updateStudentBalance` returns a student, that student is the one stored afterwards,
  -- `computeStudentBalance` then reads the balance that it holds, and a second run of
  -- `updateStudentBalance` returns the same student again.
  pub update_agrees :
      (breakdown : Bool) (school student : ℕ) (w : World D.Number) {s : Student D.Number}
      → (update_student_balance D breakdown school student w).0 ≡ some s
      → let after = (update_student_balance D breakdown school student w).1 in
        (after.students school student ≡ some s)
        × (compute_student_balance D school student after ≡ some (stored_balance s))
        × ((update_student_balance D breakdown school student after).0 ≡ some s)
  unfolding update_student_balance compute_student_balance
  update_agrees breakdown school student w {s} h =
      let after : World D.Number =
        (update_found D breakdown school student (w.students school student) w).1 in
      let (stored, reads, again) =
        update_found-agrees breakdown school student (w.students school student) w h in
      (
        stored,
        ap
              (λ (found : Option (Student D.Number)).
                balance_found D school student found after.payments)
              stored
            ∙ reads,
        ap
              (λ (found : Option (Student D.Number)).
                (update_found D breakdown school student found after).0)
              stored
            ∙ again,
      )

  update_found-local :
      (breakdown : Bool) (school student : ℕ) (found : Option (Student D.Number))
      (w : World D.Number)
      → (j k : ℕ) → (j == school && k == student) ≡ false
      → let after = (update_found D breakdown school student found w).1 in
        (after.students j k ≡ w.students j k)
        × ((id : ℕ) → after.period_fees j k id ≡ w.period_fees j k id)
        × (after.payments ≡ w.payments)
  unfolding sync_current_period_fee
  update_found-local breakdown school student none w j k off = (refl, λ id. refl, refl)
  update_found-local breakdown school student (some s) w j k off = (rw off, λ id. rw off, refl)

  -- `updateStudentBalance` changes no payment, and no balance and no period fee of any other
  -- student, of any school.
  update_local :
      (breakdown : Bool) (school student : ℕ) (w : World D.Number) (j k : ℕ)
      → (j == school && k == student) ≡ false
      → let after = (update_student_balance D breakdown school student w).1 in
        (after.students j k ≡ w.students j k)
        × ((id : ℕ) → after.period_fees j k id ≡ w.period_fees j k id)
        × (after.payments ≡ w.payments)
  unfolding update_student_balance
  update_local breakdown school student w j k off =
      update_found-local breakdown school student (w.students school student) w j k off
