-- ===== src/Horizon/Failover/Served.antt =====
-- When a call is served (backend/src/services/horizonFailoverClient.js).
use mathlib.Core.Path.{subst}
use stellar_edu_pay.Common.{
  ℕ, zero, suc, ◌+◌, ◌-◌, ◌%◌, ◌<◌, ◌≡◌, ◌≢◌, refl, sym, ap, ◌∙◌, true, false, List, [], ◌∷◌,
  Option, some, ◌==◌, arith, Bool-cases, inl, inr, ◌⊎◌,
}
use stellar_edu_pay.Horizon.Failover.{
  Config, Breaker, Breakers, is_available, record_failure, put, ask, next_available_index, Outcome,
  value, transient, Client, Result, returned, contains, go_on, turn, call_loop, call_from, call,
}
use stellar_edu_pay.Horizon.Failover.Scan.{
  up, ask-up, IsStep, remainder-IsStep, scan-up, scan_finds, put-other,
}
use stellar_edu_pay.Horizon.Failover.Distances.{
  dist, IsUntried, target_step, nearer, IsUntried-next,
}

-- No request of a call ends in an error that is not transient.
abbrev pub IsCalm : (ℕ → Outcome) → Type 0
IsCalm outcome = (i : ℕ) → ((v : ℕ) × (outcome i ≡ value v)) ⊎ ((e : ℕ) × (outcome i ≡ transient e))

abbrev pub IsServed : Result × Client → Type 0
IsServed r = (v : ℕ) × (r.0 ≡ returned v)

moves :
    (err c idx : ℕ) (r : Option ℕ × Breakers) (next : ℕ → Client → Result × Client)
    (client : Client)
    → r.0 ≡ some idx
    → (idx == c) ≡ false
    → go_on err c r next client ≡ next idx (record client { active_index = idx; breakers = r.1 })
moves err c idx r next client e d = rw (e, d) refl

not_value : {err w : ℕ} → transient err ≡ value w → ⊥
not_value h = ground arith

module _ (cfg : Config) (now count : ℕ) (outcome : ℕ → Outcome) (j v : ℕ) where
  next-up :
      (c : ℕ) (b : Breakers) (k : ℕ)
      → up cfg now (next_available_index cfg now count (suc c) b).1 k ≡ up cfg now b k
  unfolding next_available_index
  next-up c b k = scan-up cfg now count (suc c) count 0 b k

  loop_turn :
      (left : ℕ) (tried : List ℕ) (c : ℕ) (client : Client)
      → contains tried c ≡ false
      → call_loop cfg now count outcome (suc left) tried c client
        ≡ turn cfg now count c
            (outcome c)
            (λ idx moved. call_loop cfg now count outcome left (c ∷ tried) idx moved)
            client
  unfolding call_loop
  loop_turn left tried c client e = rw e refl

  -- After a failure, the next endpoint is nearer to one that is available.
  advance :
      (c : ℕ) (tried : List ℕ) (b : Breakers)
      → c < count
      → j < count
      → c ≢ j
      → up cfg now b j ≡ true
      → IsUntried count c j tried
      → (idx : ℕ) × ((next_available_index cfg now count (suc c) b).0 ≡ some idx)
        × (idx < count)
        × (idx ≢ c)
        × (dist count idx j < dist count c j)
        × IsUntried count idx j (c ∷ tried)
  unfolding next_available_index
  advance c tried b m l apart a u =
      let far = dist count c j - 1 in
      let small : far < count = ground (arith, m, l, apart) in
      let target : (suc c + far) % count ≡ j =
        target_step count c j _ m l apart (remainder-IsStep count (suc c) far m small) in
      let (step, found, most) =
        scan_finds cfg now count (suc c) count 0 far b (omega arith) (omega (arith, small))
          (ap (up cfg now b) target ∙ a) in
      let here = remainder-IsStep count (suc c) step m (omega (arith, most, small)) in
      let (moved, closer) = nearer count c j step _ m l apart most here in
      (_, found, here.0, moved, closer, IsUntried-next count c j step _ tried m l apart most here u)

  loop-IsServed :
      (left : ℕ) (tried : List ℕ) (c : ℕ) (client : Client)
      → IsCalm outcome
      → outcome j ≡ value v
      → j < count
      → c < count
      → up cfg now client.breakers j ≡ true
      → dist count c j < left
      → IsUntried count c j tried
      → IsServed (call_loop cfg now count outcome left tried c client)
  loop-IsServed zero tried c client calm o l m a d u = absurd (omega (arith, d))
  loop-IsServed (suc left) tried c client calm o l m a d u =
      let next : ℕ → Client → Result × Client =
        λ idx moved. call_loop cfg now count outcome left (c ∷ tried) idx moved in
      let at_turn = loop_turn left tried c client (u c m (ground (arith, m))) in
      elim (calm c) [
        | inl (w, e) ↦
            subst IsServed
              (sym (at_turn ∙ ap (λ (x : Outcome). turn cfg now count c x next client) e)) (w, refl)
        | inr (err, e) ↦
            let apart : c ≢ j = λ same. not_value (sym e ∙ ap outcome same ∙ o) in
            let failed = put c (record_failure cfg now (client.breakers c)) client.breakers in
            let up_j : up cfg now failed j ≡ true =
              ap (λ (b : Breaker). up cfg now (λ i. b) j)
                (put-other c j _ client.breakers (ground (arith, apart)))
              ∙ a in
            let (idx, found, n, moved, closer, rest) = advance c tried failed m l apart up_j u in
            let asked = next_available_index cfg now count (suc c) failed in
            let step =
              at_turn
              ∙ ap (λ (x : Outcome). turn cfg now count c x next client) e
              ∙ moves err c idx asked next _ found (ground (arith, moved)) in
            subst IsServed (sym step) (
              loop-IsServed left (c ∷ tried) idx _ calm o l n (next-up c failed j ∙ up_j)
                (omega (arith, closer, d)) rest)
      ]

  near : (c : ℕ) → c < count → j < count → dist count c j < count
  near c m l = ground (arith, m, l)

  first_step : (c idx : ℕ) → c < count → j < count → IsStep count c (dist count c j) idx → idx ≡ j
  first_step c idx m l (i, inl e) = ground (arith, m, l, i, e)
  first_step c idx m l (i, inr e) = ground (arith, m, l, i, e)

  begins :
      (idx : ℕ) (r : Option ℕ × Breakers) (client : Client)
      → r.0 ≡ some idx
      → call_from cfg now count outcome r client
        ≡ call_loop cfg now count outcome count [] idx
            (record client { active_index = idx; breakers = r.1 })
  begins idx r client e = rw e refl

  -- When the active endpoint refuses, the scan starts at it.
  from_IsServed :
      (c : ℕ) (client : Client) (b : Breakers)
      → IsCalm outcome
      → outcome j ≡ value v
      → j < count
      → c < count
      → up cfg now b j ≡ true
      → IsServed (call_from cfg now count outcome (next_available_index cfg now count c b) client)
  unfolding next_available_index
  from_IsServed c client b calm o l m a =
      let far = dist count c j in
      let small : far < count = near c m l in
      let target : (c + far) % count ≡ j =
        first_step c _ m l (remainder-IsStep count c far (omega (arith, m)) small) in
      let (step, found, most) =
        scan_finds cfg now count c count 0 far b (omega arith) (omega (arith, small))
          (ap (up cfg now b) target ∙ a) in
      let here = remainder-IsStep count c step (omega (arith, m)) (omega (arith, most, small)) in
      subst IsServed (sym (begins _ (next_available_index cfg now count c b) client found)) (
        loop-IsServed count [] _ _ calm o l here.0 (scan-up cfg now count c count 0 b j ∙ a)
          (near _ here.0 l) (λ k n d. refl))

  call-IsServed :
      (client : Client)
      → IsCalm outcome
      → outcome j ≡ value v
      → j < count
      → client.active_index < count
      → up cfg now client.breakers j ≡ true
      → IsServed (call cfg now count outcome client)
  unfolding call
  call-IsServed client calm o l m a =
      let stays = ask-up cfg now client.active_index client.breakers j ∙ a in
      elim (Bool-cases (ask cfg now client.active_index client.breakers).0) [
        | inl y ↦ rw y (
            loop-IsServed count [] client.active_index _ calm o l m stays
              (near client.active_index m l) (λ k n d. refl))
        | inr y ↦ rw y (from_IsServed client.active_index client _ calm o l m stays)
      ]

-- A call is served when it can be: if no request of it ends in an error that is not transient, and
-- some endpoint whose breaker lets it through would serve it, `call` returns a value, whatever the
-- other endpoints do and whichever is active, for any count of endpoints and any breakers; it never
-- gives up before it has come to that endpoint.
pub available-IsServed :
    (cfg : Config) (now count : ℕ) (outcome : ℕ → Outcome) (j v : ℕ) (client : Client)
    → IsCalm outcome
    → outcome j ≡ value v
    → j < count
    → client.active_index < count
    → (is_available cfg now (client.breakers j)).0 ≡ true
    → IsServed (call cfg now count outcome client)
available-IsServed cfg now count outcome j v client calm o l m a =
    call-IsServed cfg now count outcome j v client calm o l m a
