-- ===== src/Refund/Store.antt =====
-- MongoDB as backend/src/services/refundService.js uses it: the operations of mongoose are an
-- interface with their documented behaviour, and a transaction commits all of its writes or none.
use stellar_edu_pay.Common.{
  ℕ, ◌+◌, Bool, true, false, ◌≡◌, List, [], ◌∷◌, ◌++◌, Option, none, some, ◌==◌, if◌then◌else◌, any,
  filter, map,
}
use mathlib.Core.List.{Memᴰ}
use stellar_edu_pay.Lock.{Locks}
use stellar_edu_pay.Refund.Data.{Refund, Paid, Event}

abbrev pub total_of : {D : Type 0} → (D → ℕ) → List D → ℕ
total_of f [] = 0
total_of f (d ∷ ds) = f d + total_of f ds

pub record Mongo : Type 1 where
  -- `Model.findOne(filter)`
  pub find_one : (D : Type 0) → (D → Bool) → List D → Option D
  -- `Model.aggregate([{ $match }, { $group: { $sum } }])`
  pub sum_where : (D : Type 0) → (D → Bool) → (D → ℕ) → List D → ℕ
  -- `Model.create([doc])`
  pub create : (D : Type 0) → D → List D → List D
  -- `doc.save()` on a document that was read
  pub save : (D : Type 0) → (D → ℕ) → D → List D → List D
  pub find_one_sound :
      (D : Type 0) (p : D → Bool) (ds : List D) (d : D)
      → find_one D p ds ≡ some d
      → (p d ≡ true) × Memᴰ d ds
  pub find_one_complete :
      (D : Type 0) (p : D → Bool) (ds : List D) → find_one D p ds ≡ none → any p ds ≡ false
  pub sum_where_lem :
      (D : Type 0) (p : D → Bool) (f : D → ℕ) (ds : List D)
      → sum_where D p f ds ≡ total_of f (filter p ds)
  pub create_lem : (D : Type 0) (d : D) (ds : List D) → create D d ds ≡ ds ++ d ∷ []
  pub save_lem :
      (D : Type 0) (id : D → ℕ) (d : D) (ds : List D)
      → save D id d ds ≡ map (λ x. if id x == id d then d else x) ds

-- The collections and the locks of one process.
pub record World : Type 0 where
  pub payments : List Paid
  pub refunds : List Refund
  pub outbox : List Event
  pub locks : Locks

-- One write inside a transaction.
pub data Write : Type 0 where
  create_refund save_refund : Refund → Write
  save_payment : Paid → Write
  create_event : Event → Write

module _ (m : Mongo) where
  unfoldable pub write : Write → World → World
  write (create_refund r) w = record w { refunds = m.create Refund r w.refunds }
  write (save_refund r) w = record w { refunds = m.save Refund (λ x. x.id) r w.refunds }
  write (save_payment p) w = record w { payments = m.save Paid (λ x. x.id) p w.payments }
  write (create_event e) w = record w { outbox = m.create Event e w.outbox }

  unfoldable pub write_all : List Write → World → World
  write_all [] w = w
  write_all (x ∷ xs) w = write_all xs (write x w)
