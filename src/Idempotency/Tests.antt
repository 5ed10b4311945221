-- ===== src/Idempotency/Tests.antt =====
-- A collection that is a map, runs of the middleware on it, and its theorems at concrete requests.
use stellar_edu_pay.Common.{
  List, ℕ, Bool, true, false, ◌≡◌, ◌≢◌, refl, sym, [], ◌∷◌, Option, none, some, arith, ◌==◌,
  if◌then◌else◌, Option-cases, inl, inr,
}
use stellar_edu_pay.Common.Maps.{Map, lookup, insert, erase, lookup-insert, lookup-erase}
use stellar_edu_pay.Idempotency.Collection.{Collection, keep_unless}
use stellar_edu_pay.Idempotency.Store.{
  Doc, Settings, claim, get_full, unless_outdated, reserve, claimed,
}
use stellar_edu_pay.Idempotency.Middleware.{
  Converter, Options, run_handler, Request, no_fault, at_lookup, finished, aborted, handle,
  with_key, looked_up, claim_key, answer_of, on_events,
}
use stellar_edu_pay.Idempotency.Replay.{Turn, asked, expired, AllReplied, replay_exact, replayed}
use stellar_edu_pay.Idempotency.Retry.{dropped_retries}

abbrev create_in : ℕ → Doc → Option Doc → Map Doc → Option (Map Doc)
create_in k d none s = some (insert k d s)
create_in k d (some other) s = none

abbrev delete_in : ℕ → (Doc → Bool) → Option Doc → Map Doc → Map Doc
delete_in k p none s = s
delete_in k p (some d) s = if p d then erase k s else s

abbrev update_in : ℕ → (Doc → Bool) → (Doc → Doc) → Option Doc → Map Doc → Option (Map Doc)
update_in k p f none s = none
update_in k p f (some d) s = if p d then some (insert k (f d) s) else none

create_in_sound :
    (k : ℕ) (d : Doc) (s : Map Doc) {s' : Map Doc}
    → create_in k d (lookup k s) s ≡ some s'
    → (lookup k s ≡ none) × ((j : ℕ) → lookup j s' ≡ (if k == j then some d else lookup j s))
create_in_sound k d s {s'} made = elim (Option-cases (lookup k s)) [
  | inl absent ↦
      let e : insert k d s ≡ s' = ground arith in (absent, λ j. rw (sym e) (lookup-insert k j d s))
  | inr (other, found) ↦ absurd (ground arith)
]

create_in_refused :
    (k : ℕ) (d : Doc) (s : Map Doc)
    → create_in k d (lookup k s) s ≡ none
    → (held : Doc) × (lookup k s ≡ some held)
create_in_refused k d s refused = elim (Option-cases (lookup k s)) [
  | inl absent ↦ absurd (ground arith)
  | inr (other, found) ↦ (other, found)
]

lookup-delete_in :
    (k j : ℕ) (p : Doc → Bool) (s : Map Doc)
    → lookup j (delete_in k p (lookup k s) s)
      ≡ (if k == j then keep_unless p (lookup k s) else lookup j s)
lookup-delete_in k j p s = elim (Option-cases (lookup k s)) [
  | inl absent ↦ ground arith
  | inr (d, found) ↦ ground (arith, lookup-erase k j s)
]

update_in_sound :
    (k : ℕ) (p : Doc → Bool) (f : Doc → Doc) (s : Map Doc) {s' : Map Doc}
    → update_in k p f (lookup k s) s ≡ some s'
    → (d : Doc) × (lookup k s ≡ some d)
      × (p d ≡ true)
      × ((j : ℕ) → lookup j s' ≡ (if k == j then some (f d) else lookup j s))
update_in_sound k p f s {s'} made = elim (Option-cases (lookup k s)) [
  | inl absent ↦ absurd (ground arith)
  | inr (d, found) ↦
      let e : insert k (f d) s ≡ s' = ground arith in
      (d, found, ground arith, λ j. rw (sym e) (lookup-insert k j (f d) s))
]

update_in_refused :
    (k : ℕ) (p : Doc → Bool) (f : Doc → Doc) (s : Map Doc)
    → update_in k p f (lookup k s) s ≡ none
    → (d : Doc) → lookup k s ≡ some d
    → p d ≡ false
update_in_refused k p f s refused d found = ground arith

abbrev memory : Collection Doc
memory = record {
  Docs = Map Doc;
  find = lookup;
  create = λ k d s. create_in k d (lookup k s) s;
  delete_where = λ k p s. delete_in k p (lookup k s) s;
  update_where = λ k p f s. update_in k p f (lookup k s) s;
  upsert = λ k f s. insert k (f (lookup k s)) s;
  create_sound = create_in_sound;
  create_refused = create_in_refused;
  find-delete = lookup-delete_in;
  update_sound = update_in_sound;
  update_refused = update_in_refused;
  find-upsert = λ k j f s. lookup-insert k j (f (lookup k s)) s;
}

abbrev settings : Settings
settings = record { version = 3; in_flight_ttl_ms = 30_000; record_ttl_ms = 86_400_000 }

abbrev convert : Converter
convert amount asset currency = none

abbrev options : Options
options = record { fail_closed = true; critical_payment_endpoints = false }

abbrev request : ℕ → ℕ → ℕ → Request
request key fp now = record {
  key = some key;
  scope = 1;
  fingerprint = fp;
  now = now;
  fault = no_fault;
}

calm : no_fault ≢ at_lookup
calm e = ground arith

-- Two requests, and a pass of the monitor between them.
abbrev turns : List Turn
turns = asked (request 5 9 20_000) ∷ expired 5 25_000 ∷ asked (request 5 8 30_000) ∷ []

replay_exact_example :
    AllReplied memory settings convert options
      (λ r a.
        r.key ≡ some 5 → a ≡ replayed memory settings convert options 9 201 none r.fingerprint)
      turns
      (on_events memory settings convert options 5 1 9 201 none 7 true false
        (finished ∷ aborted ∷ [])
        (handle memory settings convert options (request 5 9 1_000) []).1)
unfolding handle with_key get_full unless_outdated looked_up claim_key reserve claimed lookup insert
    answer_of
replay_exact_example =
    replay_exact memory settings convert options 5 1 9 201 none 7 (aborted ∷ []) turns
      (handle memory settings convert options (request 5 9 1_000) []).1 refl
      (calm, ((λ e. omega arith), (calm, tt)))

dropped_retries_example :
    (handle memory settings convert options (request 5 8 3_000) (
      on_events memory settings convert options 5 1 9 503 none 7 true false
        (finished ∷ aborted ∷ [])
        (handle memory settings convert options (request 5 9 1_000) []).1)).0
    ≡ run_handler
unfolding handle with_key get_full unless_outdated looked_up claim_key reserve claimed lookup insert
    answer_of
dropped_retries_example =
    dropped_retries memory settings convert options (request 5 9 1_000) (request 5 8 3_000) 5 503
      none 7 finished (aborted ∷ []) [] refl refl refl refl refl refl

abbrev abandoned : Map Doc
abandoned = (5, claim 1 (some 9) 1_000) ∷ []
