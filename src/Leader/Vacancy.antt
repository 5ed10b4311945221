-- ===== src/Leader/Vacancy.antt =====
-- What is left when a leader of backend/src/services/leaderElection.js has gone.
use stellar_edu_pay.Common.{
  ℕ, ◌≡◌, refl, sym, ◌∙◌, Bool, true, false, Option, none, List, [], ◌∷◌, arith, Bool-cases, inl,
  inr, ◌==◌,
}
use stellar_edu_pay.Leader.{
  LockDoc, of_schema, acquire_lock, release_lock, Instance, Cluster, idle, initial, leads,
  with_instance, promoted, timer_turn, start, tick, stop, crash, Step, starts, ticks, stops,
  crashes, step, run,
}
use stellar_edu_pay.Leader.Terms.{IsSound, run-IsSound, initial-IsSound}
use stellar_edu_pay.Leader.Documents.{
  NoExpiry, false_not_true, not_true, acquire_lock-cases, release_lock-keeps,
}

-- The document exists, and nobody leads.
record IsVacant (c : Cluster) : Type 0 where
  no_expiry : NoExpiry c.doc
  exists : c.doc ≡ none → ⊥
  nobody : (i : ℕ) → leads c i ≡ false

module _ (lease : ℕ) (i : ℕ) (c : Cluster) (s : IsVacant c) where
  vacant :
      (x : Instance) (doc : Option LockDoc)
      → x.is_leader ≡ false
      → NoExpiry doc
      → (doc ≡ none → ⊥)
      → IsVacant (with_instance i x doc c)
  vacant x doc h n e = record {
    no_expiry = n;
    exists = e;
    nobody = λ j. elim (Bool-cases (j == i)) [
      | inl at ↦ rw (leads, at) h
      | inr off ↦ rw (leads, off) (s.nobody j)
    ];
  }

  attempt-IsVacant :
      (now : ℕ) (t : Bool)
      → let r = acquire_lock (of_schema lease) now c.doc in
        IsVacant (with_instance i (record (promoted r.0 (c.instances i)) { timer = t }) r.1 c)
  attempt-IsVacant now t = elim (acquire_lock-cases lease now c.doc s.no_expiry) [
    | inl (g, e) ↦ absurd (s.exists g)
    | inr (d, g, e) ↦ rw e (vacant _ c.doc (s.nobody i) s.no_expiry s.exists)
  ]

  turn-IsVacant :
      (now : ℕ) (timer is_leader : Bool)
      → is_leader ≡ false
      → IsVacant (timer_turn (of_schema lease) i now c timer is_leader)
  turn-IsVacant now false is_leader h = s
  turn-IsVacant now true true h = absurd (false_not_true (sym h))
  turn-IsVacant now true false h =
      attempt-IsVacant now
        (promoted (acquire_lock (of_schema lease) now c.doc).0 (c.instances i)).timer

  stop-IsVacant : IsVacant (stop (of_schema lease) i c)
  unfolding stop
  stop-IsVacant = rw (s.nobody i) (vacant idle c.doc refl s.no_expiry s.exists)

run-IsVacant :
    (lease : ℕ) (steps : List Step) (c : Cluster)
    → IsVacant c
    → IsVacant (run (of_schema lease) steps c)
unfolding run step start tick crash
run-IsVacant lease [] c s = s
run-IsVacant lease (starts i now ∷ steps) c s =
    run-IsVacant lease steps _ (attempt-IsVacant lease i c s now true)
run-IsVacant lease (ticks i now ∷ steps) c s =
    run-IsVacant lease steps _
      (turn-IsVacant lease i c s now (c.instances i).timer (c.instances i).is_leader (s.nobody i))
run-IsVacant lease (stops i ∷ steps) c s = run-IsVacant lease steps _ (stop-IsVacant lease i c s)
run-IsVacant lease (crashes i ∷ steps) c s =
    run-IsVacant lease steps _ (vacant lease i c s idle c.doc refl s.no_expiry s.exists)

module _ (lease : ℕ) (i : ℕ) (c : Cluster) (s : IsSound c) (h : leads c i ≡ true) where
  gone :
      (doc : Option LockDoc)
      → NoExpiry doc
      → (doc ≡ none → ⊥)
      → IsVacant (with_instance i idle doc c)
  gone doc n e = record {
    no_expiry = n;
    exists = e;
    nobody = λ j. elim (Bool-cases (j == i)) [
      | inl at ↦ rw (leads, at) refl
      | inr off ↦ rw (leads, off) (not_true (λ l. apart j off (s.one j i l h)))
    ];
  }
    where
      apart : (j : ℕ) → (j == i) ≡ false → j ≡ i → ⊥
      apart j off e = ground arith

  exists_here : c.doc ≡ none → ⊥
  exists_here e = false_not_true (sym (s.no_leader e i) ∙ h)

  stopped-IsVacant : IsVacant (stop (of_schema lease) i c)
  unfolding stop
  stopped-IsVacant =
      let (n, e) = release_lock-keeps lease c.doc s.no_expiry in
      rw h (gone (release_lock (of_schema lease) c.doc) n (λ f. exists_here (e f)))

  crashed-IsVacant : IsVacant (crash i c)
  unfolding crash
  crashed-IsVacant = gone c.doc s.no_expiry exists_here

-- With the schema of backend/src/models/systemConfigModel.js, which has no `expiresAt`, a leader has
-- no successor: when the leader of a cluster that started from nothing stops or crashes, then no
-- instance leads after any further steps, itself included.
pub no_successor :
    (lease : ℕ) (before after : List Step) (i : ℕ)
    → leads (run (of_schema lease) before initial) i ≡ true
    → (j : ℕ)
    → (leads (run (of_schema lease) (stops i ∷ after) (run (of_schema lease) before initial)) j
        ≡ false)
      × (leads (run (of_schema lease) (crashes i ∷ after) (run (of_schema lease) before initial)) j
          ≡ false)
unfolding run step
no_successor lease before after i h j =
    let c : Cluster = run (of_schema lease) before initial in
    let s : IsSound c = run-IsSound lease before initial initial-IsSound in
    (
      (run-IsVacant lease after _ (stopped-IsVacant lease i c s h)).nobody j,
      (run-IsVacant lease after _ (crashed-IsVacant lease i c s h)).nobody j,
    )
