-- ===== src/Refund/Tests.antt =====
-- Runs of the refund service on a small store, and its theorems at concrete states.
use mathlib.Core.List.{Memᴰ}
use stellar_edu_pay.Common.{
  ℕ, Bool, true, false, ◌≡◌, refl, sym, List, [], ◌∷◌, ◌++◌, map, Option, none, some, ◌==◌, ◌≤◌,
  ◌<◌, any, filter, if◌then◌else◌, arith, inl, inr, Bool-cases, All,
}
use stellar_edu_pay.Text.{trim, is_space}
use stellar_edu_pay.Lock.{empty, acquire, release}
use stellar_edu_pay.Payment.Status.{Status}
use stellar_edu_pay.Payment.Model.{Payment, known}
use stellar_edu_pay.Payment.Model as Model
use stellar_edu_pay.Refund.Data.{
  confirmed, missing, user, is_known, Paid, ok, err, self_approval, build_principal, unknown,
}
use stellar_edu_pay.Common.Maps.{lookup, insert, erase}
use stellar_edu_pay.Refund.Store.{Mongo, World, total_of, write, write_all}
use stellar_edu_pay.Refund.Plans.{
  units, complete_checks, complete_plan, approve_plan, initiate_plan, Request, new_refund,
  is_payment, is_status,
}
use stellar_edu_pay.Refund.Service.{
  Turn, Call, ask, agree, finish, transact, under_lock, read_then_lock, initiate, approve, apply,
  run,
}
use stellar_edu_pay.Refund.Service.{update_status}
use stellar_edu_pay.Refund.Plans.{update_checks, update_plan}
use stellar_edu_pay.Refund.Data.{pending, ok}
use stellar_edu_pay.Refund.Approval.{IsTwoPerson, two_person}
use stellar_edu_pay.Refund.Amounts.{is_active_of, is_confirmed_of, initiate_checked}

abbrev find : (D : Type 0) → (D → Bool) → List D → Option D
find D p [] = none
find D p (d ∷ ds) = if p d then some d else find D p ds

find_sound :
    (D : Type 0) (p : D → Bool) (ds : List D) (d : D)
    → find D p ds ≡ some d
    → (p d ≡ true) × Memᴰ d ds
find_sound D p [] d h = ground arith
find_sound D p (x ∷ ds) d h = elim (Bool-cases (p x)) [
  | inl e ↦ (first e, Memᴰ.head (sym (first_is e)))
  | inr e ↦ let (holds, mem) = find_sound D p ds d (ground arith) in (holds, Memᴰ.tail mem)
]
  where
    first_is : p x ≡ true → x ≡ d
    first_is e = ground arith

    first : p x ≡ true → p d ≡ true
    first e = rw (sym (first_is e)) e

find_complete : (D : Type 0) (p : D → Bool) (ds : List D) → find D p ds ≡ none → any p ds ≡ false
find_complete D p [] h = refl
find_complete D p (x ∷ ds) h = ground (arith, find_complete D p ds)

abbrev mongo : Mongo
mongo = record {
  find_one = find;
  sum_where = λ D p f ds. total_of f (filter p ds);
  create = λ D d ds. ds ++ d ∷ [];
  save = λ D id d ds. map (λ x. if id x == id d then d else x) ds;
  find_one_sound = find_sound;
  find_one_complete = find_complete;
  sum_where_lem = λ D p f ds. refl;
  create_lem = λ D d ds. refl;
  save_lem = λ D id d ds. refl;
}

abbrev lock_key : ℕ → ℕ → ℕ
lock_key school tx = tx

abbrev paid : Paid
paid = record {
  id = 1;
  school_id = 4;
  tx_hash = 77;
  amount = 500;
  life = Model.write 0 (some (known Status.success)) (record {
    status = known Status.submitted;
    confirmation_state = Model.derive_confirmation_state (known Status.submitted);
    confirmation_status = Model.derive_confirmation_status (known Status.submitted);
    rejected_at = none;
  });
}

abbrev world : World
world = record { payments = paid ∷ []; refunds = []; outbox = []; locks = empty }

abbrev at : ℕ → Turn
at t = record { now = t; token = t; commits = true }

abbrev request : Request
request = record {
  new_id = 9;
  school = 4;
  tx = 77;
  student = 3;
  amount = units 200;
  reason = [];
  principal = user 1;
}

abbrev all_calls : List (Turn × Call)
all_calls =
    (at 1, ask request) ∷ (at 2, agree 9 (user 2) 4) ∷ (at 3, finish 9 (b't' ∷ []) (user 3) 4) ∷ []

own_approval :
    (approve mongo lock_key (at 2) 9 (user 1) 4 (apply mongo lock_key (at 1) (ask request) world)).0
    ≡ err self_approval
unfolding approve apply transact approve_plan under_lock acquire lookup initiate_plan Model.write
    write_all write
own_approval = refl

paid_out : map (λ r. r.status) (run mongo lock_key all_calls world).refunds ≡ confirmed ∷ []
unfolding run apply read_then_lock complete_checks trim is_space approve_plan acquire lookup
    initiate_plan Model.write write_all write release insert erase complete_plan
paid_out = refl

principal_of_token : build_principal missing (user 7) missing unknown ≡ ok (user 7)
unfolding build_principal
principal_of_token = refl

two_person_example : All IsTwoPerson (run mongo lock_key all_calls world).refunds
two_person_example = two_person mongo lock_key all_calls world tt

initiate_checked_example :
    (new_refund request ≡ new_refund request)
    × (is_known (user 1) ≡ true)
    × (0 < 200)
    × ((pay : Paid) × (is_payment 4 77 pay ≡ true)
        × (is_status Status.success pay.life.status ≡ true)
        × (200 ≤ pay.amount))
    × (any (is_active_of 4 77) [] ≡ false)
    × (total_of (λ x. x.amount) (filter (is_confirmed_of 4 77) []) ≡ 0)
unfolding initiate under_lock acquire lookup initiate_plan Model.write
initiate_checked_example = initiate_checked mongo lock_key (at 1) request world refl

bypassed :
    map
      (λ r. r.status)
      (update_status mongo lock_key
        (at 2)
        9
        pending
        []
        []
        (some 4)
        (apply mongo lock_key (at 1) (ask request) world)).1.refunds
    ≡ pending ∷ []
unfolding update_status apply read_then_lock update_checks acquire lookup initiate_plan Model.write
    write_all write release insert erase update_plan
bypassed = refl
