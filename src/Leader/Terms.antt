-- ===== src/Leader/Terms.antt =====
-- Who leads, with the schema of the collection as it is (backend/src/services/leaderElection.js and
-- backend/src/models/systemConfigModel.js).
use stellar_edu_pay.Common.{
  ℕ, ◌≡◌, refl, sym, ap, ◌∙◌, Bool, true, false, Option, none, List, [], ◌∷◌, arith, Bool-cases,
  inl, inr, ◌⊎◌, ◌==◌,
}
use stellar_edu_pay.Leader.{
  LockDoc, of_schema, acquire_lock, renew_lock, release_lock, Instance, Cluster, idle, initial,
  leads, with_instance, promoted, renewed, timer_turn, start, tick, stop, crash, Step, starts,
  ticks, stops, crashes, step, run,
}
use stellar_edu_pay.Leader.Documents.{
  NoExpiry, false_not_true, not_true, acquire_lock-cases, renew_lock-keeps, release_lock-keeps,
}

-- Nobody leads before the document exists, and no two instances lead; the schedulers run exactly
-- where `isLeader` is set.
pub record IsSound (c : Cluster) : Type 0 where
  pub no_expiry : NoExpiry c.doc
  pub no_leader : c.doc ≡ none → (i : ℕ) → leads c i ≡ false
  pub one : (i j : ℕ) → leads c i ≡ true → leads c j ≡ true → i ≡ j
  pub started : (i : ℕ) → (c.instances i).schedulers ≡ (c.instances i).is_leader

module _ (c : Cluster) (i : ℕ) (x : Instance) (doc : Option LockDoc) where
  now_leads :
      (j : ℕ)
      → leads (with_instance i x doc c) j ≡ true
      → ((j ≡ i) × (x.is_leader ≡ true)) ⊎ (leads c j ≡ true)
  now_leads j h = elim (Bool-cases (j == i)) [
    | inl e ↦ inl (ground arith, ground arith)
    | inr e ↦ inr (ground arith)
  ]

  schedulers_match :
      x.schedulers ≡ x.is_leader
      → ((j : ℕ) → (c.instances j).schedulers ≡ (c.instances j).is_leader)
      → (j : ℕ)
      → ((with_instance i x doc c).instances j).schedulers
        ≡ ((with_instance i x doc c).instances j).is_leader
  schedulers_match h s j = elim (Bool-cases (j == i)) [ inl e ↦ rw e h | inr e ↦ rw e (s j) ]

  -- An instance that leads afterwards only if it did.
  kept :
      IsSound c
      → x.schedulers ≡ x.is_leader
      → (x.is_leader ≡ true → leads c i ≡ true)
      → NoExpiry doc
      → (doc ≡ none → c.doc ≡ none)
      → IsSound (with_instance i x doc c)
  kept s h k n e =
      let back : (j : ℕ) → leads (with_instance i x doc c) j ≡ true → leads c j ≡ true =
        λ j l. elim (now_leads j l) [ inl (at, y) ↦ ap (leads c) at ∙ k y | inr y ↦ y ] in
      record {
        no_expiry = n;
        no_leader = λ g j. not_true (λ l. false_not_true (sym (s.no_leader (e g) j) ∙ back j l));
        one = λ a b l m. s.one a b (back a l) (back b m);
        started = schedulers_match h s.started;
      }

  -- An instance that acquires the lock, where there was none.
  promote :
      IsSound c
      → x.schedulers ≡ x.is_leader
      → c.doc ≡ none
      → NoExpiry doc
      → (doc ≡ none → ⊥)
      → IsSound (with_instance i x doc c)
  promote s h g n e =
      let it : (j : ℕ) → leads (with_instance i x doc c) j ≡ true → j ≡ i = λ j l.
        elim (now_leads j l) [
          | inl (at, y) ↦ at
          | inr y ↦ absurd (false_not_true (sym (s.no_leader g j) ∙ y))
        ] in
      record {
        no_expiry = n;
        no_leader = λ f j. absurd (e f);
        one = λ a b l m. it a l ∙ sym (it b m);
        started = schedulers_match h s.started;
      }

renewed-match :
    (b : Bool) (x : Instance)
    → x.schedulers ≡ x.is_leader
    → ((renewed b x).schedulers ≡ (renewed b x).is_leader)
      × ((renewed b x).is_leader ≡ true → x.is_leader ≡ true)
renewed-match true x h = (h, λ l. l)
renewed-match false x h = (refl, λ l. absurd (false_not_true l))

module _ (lease : ℕ) (i : ℕ) (c : Cluster) (s : IsSound c) where
  -- An attempt to acquire, with any other change of the timer.
  attempt-IsSound :
      (now : ℕ) (t : Bool)
      → let r = acquire_lock (of_schema lease) now c.doc in
        IsSound (with_instance i (record (promoted r.0 (c.instances i)) { timer = t }) r.1 c)
  attempt-IsSound now t = elim (acquire_lock-cases lease now c.doc s.no_expiry) [
    | inl (g, e) ↦ rw e (promote c i _ _ s refl g refl (λ f. ground arith))
    | inr (d, g, e) ↦ rw e (kept c i _ _ s (s.started i) (λ l. l) s.no_expiry (λ f. f))
  ]

  turn-IsSound :
      (now : ℕ)
      → let r = renew_lock (of_schema lease) now c.doc in
        IsSound (with_instance i (renewed r.0 (c.instances i)) r.1 c)
  turn-IsSound now =
      let (n, e) = renew_lock-keeps lease now c.doc s.no_expiry in
      let (m, l) =
        renewed-match (renew_lock (of_schema lease) now c.doc).0 (c.instances i) (s.started i) in
      kept c i _ _ s m l n e

  stop-IsSound : IsSound (stop (of_schema lease) i c)
  unfolding stop
  stop-IsSound = elim (Bool-cases (leads c i)) [
    | inl e ↦
        let (n, f) = release_lock-keeps lease c.doc s.no_expiry in
        rw e (
          kept c i idle (release_lock (of_schema lease) c.doc) s refl
            (λ l. absurd (false_not_true l)) n f)
    | inr e ↦
        rw e (kept c i idle c.doc s refl (λ l. absurd (false_not_true l)) s.no_expiry (λ f. f))
  ]

  crash-IsSound : IsSound (crash i c)
  unfolding crash
  crash-IsSound = kept c i idle c.doc s refl (λ l. absurd (false_not_true l)) s.no_expiry (λ f. f)

  timer_turn-IsSound :
      (now : ℕ) (timer is_leader : Bool)
      → IsSound (timer_turn (of_schema lease) i now c timer is_leader)
  timer_turn-IsSound now false is_leader = s
  timer_turn-IsSound now true true = turn-IsSound now
  timer_turn-IsSound now true false =
      attempt-IsSound now
        (promoted (acquire_lock (of_schema lease) now c.doc).0 (c.instances i)).timer

  tick-IsSound : (now : ℕ) → IsSound (tick (of_schema lease) i now c)
  unfolding tick
  tick-IsSound now = timer_turn-IsSound now (c.instances i).timer (c.instances i).is_leader

  start-IsSound : (now : ℕ) → IsSound (start (of_schema lease) i now c)
  unfolding start
  start-IsSound now = attempt-IsSound now true

pub run-IsSound :
    (lease : ℕ) (steps : List Step) (c : Cluster)
    → IsSound c
    → IsSound (run (of_schema lease) steps c)
unfolding run step
run-IsSound lease [] c s = s
run-IsSound lease (starts i now ∷ steps) c s =
    run-IsSound lease steps _ (start-IsSound lease i c s now)
run-IsSound lease (ticks i now ∷ steps) c s =
    run-IsSound lease steps _ (tick-IsSound lease i c s now)
run-IsSound lease (stops i ∷ steps) c s = run-IsSound lease steps _ (stop-IsSound lease i c s)
run-IsSound lease (crashes i ∷ steps) c s = run-IsSound lease steps _ (crash-IsSound lease i c s)

pub initial-IsSound : IsSound initial
initial-IsSound = record {
  no_expiry = _;
  no_leader = λ e i. refl;
  one = λ i j h k. absurd (false_not_true h);
  started = λ i. refl;
}

-- With the schema of backend/src/models/systemConfigModel.js, which has no `expiresAt`: whatever
-- instances start, turn, stop and crash in whatever order, no two of them lead at the same time, and
-- the leader-only schedulers of an instance run exactly while it leads.
pub one_leader :
    (lease : ℕ) (steps : List Step)
    → let c = run (of_schema lease) steps initial in
      ((i j : ℕ) → leads c i ≡ true → leads c j ≡ true → i ≡ j)
      × ((i : ℕ) → (c.instances i).schedulers ≡ leads c i)
one_leader lease steps =
    let s : IsSound (run (of_schema lease) steps initial) =
      run-IsSound lease steps initial initial-IsSound in
    (s.one, s.started)
