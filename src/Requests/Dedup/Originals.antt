-- ===== src/Requests/Dedup/Originals.antt =====
-- How many requests of a key are passed on (backend/src/middleware/concurrentRequestHandler.js).
use stellar_edu_pay.Common.{
  ℕ, suc, ◌+◌, ◌≤◌, ◌≡◌, refl, sym, ap, ◌∙◌, Bool, true, false, ◌&&◌, List, [], ◌∷◌, Option, none,
  some, ◌==◌, if◌then◌else◌, arith, Bool-cases, inl, inr,
}
use stellar_edu_pay.Common.Maps.{insert, erase, lookup, lookup-insert, lookup-erase}
use stellar_edu_pay.Requests.Dedup.{
  Pending, start_found, try_start, complete, time_out, Reply, passed_on, answered_with, reply,
  deduplicate, Call, arrived, completed, timed_out, apply,
}

abbrev is_passed : Reply → Bool
is_passed passed_on = true
is_passed (answered_with n) = false

abbrev has_key : Option ℕ → ℕ → Bool
has_key none key = false
has_key (some k) key = k == key

-- How many calls pass on a request of the key, and how many end one.
abbrev one_passed : ℕ → Call → Pending → ℕ
one_passed key (arrived k request) pending =
    if has_key k key && is_passed (deduplicate k request pending).0 then 1 else 0
one_passed key (completed k) pending = 0
one_passed key (timed_out k) pending = 0

abbrev pub originals : ℕ → List Call → Pending → ℕ
originals key [] pending = 0
originals key (c ∷ calls) pending = one_passed key c pending + originals key calls (apply c pending)

abbrev one_ended : ℕ → Call → ℕ
one_ended key (arrived k request) = 0
one_ended key (completed k) = if k == key then 1 else 0
one_ended key (timed_out k) = if k == key then 1 else 0

abbrev pub ends : ℕ → List Call → ℕ
ends key [] = 0
ends key (c ∷ calls) = one_ended key c + ends key calls

-- One more request of the key may pass when none is pending.
abbrev free : Option ℕ → ℕ
free none = 1
free (some r) = 0

free_most : (o : Option ℕ) → free o ≤ 1
free_most none = omega arith
free_most (some r) = omega arith

erased-free :
    (key k : ℕ) (pending : Pending)
    → free (lookup key (erase k pending)) ≤ (if k == key then 1 else 0) + free (lookup key pending)
erased-free key k pending = elim (Bool-cases (k == key)) [
  | inl y ↦ rw y (omega (arith, free_most (lookup key (erase k pending))))
  | inr y ↦
      let stays : lookup key (erase k pending) ≡ lookup key pending =
        lookup-erase k key pending ∙ rw y refl in
      rw (y, stays) (omega arith)
]

started-free :
    (key k request : ℕ) (pending : Pending) (o : Option ℕ)
    → lookup k pending ≡ o
    → (if k == key && is_passed (reply (start_found o k request pending).0) then 1 else 0)
        + free (lookup key (start_found o k request pending).1)
      ≤ free (lookup key pending)
started-free key k request pending (some r) e = elim (Bool-cases (k == key)) [
  | inl y ↦ rw y (omega arith)
  | inr y ↦ rw y (omega arith)
]
started-free key k request pending none e = elim (Bool-cases (k == key)) [
  | inl y ↦
      let equal : k ≡ key = ground (arith, y) in
      let held : lookup key (insert k request pending) ≡ some request =
        lookup-insert k key request pending ∙ rw y refl in
      let was : lookup key pending ≡ none = ap (λ (j : ℕ). lookup j pending) (sym equal) ∙ e in
      rw (y, held, was) (omega arith)
  | inr y ↦
      let stays : lookup key (insert k request pending) ≡ lookup key pending =
        lookup-insert k key request pending ∙ rw y refl in
      rw (y, stays) (omega arith)
]

one_call :
    (key : ℕ) (c : Call) (pending : Pending)
    → one_passed key c pending + free (lookup key (apply c pending))
      ≤ one_ended key c + free (lookup key pending)
unfolding apply deduplicate try_start complete time_out
one_call key (arrived none request) pending = omega arith
one_call key (arrived (some k) request) pending =
    omega (arith, started-free key k request pending (lookup k pending) refl)
one_call key (completed k) pending = omega (arith, erased-free key k pending)
one_call key (timed_out k) pending = omega (arith, erased-free key k pending)

originals-free :
    (key : ℕ) (calls : List Call) (pending : Pending)
    → originals key calls pending ≤ ends key calls + free (lookup key pending)
originals-free key [] pending = omega arith
originals-free key (c ∷ calls) pending =
    omega (arith, one_call key c pending, originals-free key calls (apply c pending))

-- Out of the requests of a key, among requests of other keys or of none, at most one more is passed
-- on than the calls of `complete` for the key and the timers that fired for it.
pub originals_bounded :
    (key : ℕ) (calls : List Call) (pending : Pending)
    → originals key calls pending ≤ suc (ends key calls)
originals_bounded key calls pending =
    omega (arith, originals-free key calls pending, free_most (lookup key pending))
