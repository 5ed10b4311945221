-- ===== src/Idempotency/Collection.antt =====
-- The MongoDB collection of backend/src/models/idempotencyKeyModel.js as its clients use it: the
-- operations of mongoose on a collection with a unique index on `key`, with their documented
-- behaviour. Each one is atomic.
use stellar_edu_pay.Common.{ℕ, Bool, true, false, ◌≡◌, Option, none, some, ◌==◌, if◌then◌else◌}

abbrev pub keep_unless : {D : Type 0} → (D → Bool) → Option D → Option D
keep_unless p none = none
keep_unless p (some d) = if p d then none else some d

pub record Collection (D : Type 0) : Type 1 where
  pub Docs : Type 0
  -- `findOne({ key })`
  pub find : ℕ → Docs → Option D
  -- `create({ key, … })`, `none` for the error 11000 of a duplicate key
  pub create : ℕ → D → Docs → Option Docs
  -- `deleteOne({ key, … })`
  pub delete_where : ℕ → (D → Bool) → Docs → Docs
  -- `findOneAndUpdate({ key, … }, { $set })`, `none` where no document matches
  pub update_where : ℕ → (D → Bool) → (D → D) → Docs → Option Docs
  -- `findOneAndUpdate({ key }, { $set, $setOnInsert }, { upsert: true })`
  pub upsert : ℕ → (Option D → D) → Docs → Docs
  pub create_sound :
      (k : ℕ) (d : D) (s : Docs) {s' : Docs}
      → create k d s ≡ some s'
      → (find k s ≡ none) × ((j : ℕ) → find j s' ≡ (if k == j then some d else find j s))
  pub create_refused :
      (k : ℕ) (d : D) (s : Docs) → create k d s ≡ none → (held : D) × (find k s ≡ some held)
  pub find-delete :
      (k j : ℕ) (p : D → Bool) (s : Docs)
      → find j (delete_where k p s) ≡ (if k == j then keep_unless p (find k s) else find j s)
  pub update_sound :
      (k : ℕ) (p : D → Bool) (f : D → D) (s : Docs) {s' : Docs}
      → update_where k p f s ≡ some s'
      → (d : D) × (find k s ≡ some d)
        × (p d ≡ true)
        × ((j : ℕ) → find j s' ≡ (if k == j then some (f d) else find j s))
  pub update_refused :
      (k : ℕ) (p : D → Bool) (f : D → D) (s : Docs)
      → update_where k p f s ≡ none
      → (d : D) → find k s ≡ some d
      → p d ≡ false
  pub find-upsert :
      (k j : ℕ) (f : Option D → D) (s : Docs)
      → find j (upsert k f s) ≡ (if k == j then some (f (find k s)) else find j s)
