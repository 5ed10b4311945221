-- ===== src/Idempotency/Records.antt =====
-- What the operations of backend/src/services/idempotencyStore.js leave stored under a key.
use stellar_edu_pay.Common.{
  ℕ, true, false, ◌≡◌, ◌≢◌, refl, ◌∙◌, Option, none, some, arith, Option-cases, Bool-cases, inl,
  inr, ◌⊎◌,
}
use stellar_edu_pay.Idempotency.Collection.{Collection}
use stellar_edu_pay.Idempotency.Store.{
  held_now, is_running, renewed, reserved, in_progress, Doc, Settings, held_now, is_running,
  renewed, reserved, claim, is_stale, is_outdated, unless_outdated, get_full, reserved_or_held,
  take_over, inspect, claimed, reserve,
}

module _ (m : Collection Doc) (c : Settings) where
  pub get_full-current :
      (key : ℕ) (s : m.Docs) {d : Doc}
      → m.find key s ≡ some d
      → is_outdated c.version d.schema_version ≡ false
      → get_full m c key s ≡ (some d, s)
  unfolding get_full unless_outdated
  get_full-current key s found current = rw found (rw current refl)

  -- An operation under one key leaves the document under another.
  unless_outdated-find :
      (key j : ℕ) (d : Option Doc) (s : m.Docs)
      → key ≢ j
      → m.find j (unless_outdated m c key d s).1 ≡ m.find j s
  unfolding unless_outdated
  unless_outdated-find key j none s ne = refl
  unless_outdated-find key j (some d) s ne = ground (arith, m.find-delete key j (λ x. true) s)

  pub get_full-find :
      (key j : ℕ) (s : m.Docs) → key ≢ j → m.find j (get_full m c key s).1 ≡ m.find j s
  unfolding get_full
  get_full-find key j s ne = unless_outdated-find key j (m.find key s) s ne

  held_now-find : (key j : ℕ) (s : m.Docs) → key ≢ j → m.find j (held_now m c key s).1 ≡ m.find j s
  unfolding held_now
  held_now-find key j s ne = get_full-find key j s ne

  create-find :
      (key j : ℕ) (d : Doc) (s : m.Docs)
      → key ≢ j
      → m.find j (reserved_or_held m c key (m.create key d s) s).1 ≡ m.find j s
  unfolding reserved_or_held
  create-find key j d s ne = elim (Option-cases (m.create key d s)) [
    | inl refused ↦ rw refused (held_now-find key j s ne)
    | inr (s', made) ↦ rw made (ground (arith, (m.create_sound key d s made).1 j))
  ]

  take_over-find :
      (key j scope : ℕ) (fp : Option ℕ) (now : ℕ) (s : m.Docs)
      → key ≢ j
      → m.find j (take_over m c key scope fp now s).1 ≡ m.find j s
  unfolding take_over reserved_or_held
  take_over-find key j scope fp now s ne =
      elim (Option-cases (m.update_where key is_running (renewed scope fp now) s)) [
        | inl refused ↦ rw refused (held_now-find key j s ne)
        | inr (s', made) ↦
            let (d, _, _, after) = m.update_sound key is_running (renewed scope fp now) s made in
            rw made (ground (arith, after j))
      ]

  inspect-find :
      (key j scope : ℕ) (fp : Option ℕ) (now : ℕ) (got : Option Doc × m.Docs)
      → key ≢ j
      → m.find j (inspect m c key scope fp now got).1 ≡ m.find j got.1
  unfolding inspect
  inspect-find key j scope fp now (none, s) ne = create-find key j (claim scope fp now) s ne
  inspect-find key j scope fp now (some d, s) ne = elim (Bool-cases (is_stale c now d)) [
    | inl stale ↦ rw stale (take_over-find key j scope fp now s ne)
    | inr recent ↦ rw recent refl
  ]

  pub reserve-find :
      (key j scope : ℕ) (fp : Option ℕ) (now : ℕ) (s : m.Docs)
      → key ≢ j
      → m.find j (reserve m c key scope fp now s).1 ≡ m.find j s
  unfolding reserve claimed
  reserve-find key j scope fp now s ne = elim (Option-cases (m.create key (claim scope fp now) s)) [
    | inl refused ↦
        rw refused
          (inspect-find key j scope fp now (get_full m c key s) ne ∙ get_full-find key j s ne)
    | inr (s', made) ↦ rw made (ground (arith, (m.create_sound key _ s made).1 j))
  ]

  -- What a granted reservation has stored: a current document in progress, with its time and
  -- fingerprint.
  abbrev pub IsReserved : ℕ → Option ℕ → ℕ → m.Docs → Type 0
  IsReserved key fp now s =
      (d : Doc) × (m.find key s ≡ some d)
      × (d.state ≡ in_progress)
      × (d.request_fingerprint ≡ fp)
      × (d.created_at ≡ now)
      × (is_outdated c.version d.schema_version ≡ false)

  created-IsReserved :
      (key scope : ℕ) (fp : Option ℕ) (now : ℕ) (s : m.Docs) {s' : m.Docs}
      → m.create key (claim scope fp now) s ≡ some s'
      → IsReserved key fp now s'
  created-IsReserved key scope fp now s made = (
    claim scope fp now,
    ground (arith, (m.create_sound key _ s made).1 key),
    refl,
    refl,
    refl,
    refl,
  )

  recreated-IsReserved :
      (key scope : ℕ) (fp : Option ℕ) (now : ℕ) (s : m.Docs)
      → (reserved_or_held m c key (m.create key (claim scope fp now) s) s).0 ≡ reserved
      → IsReserved key fp now (reserved_or_held m c key (m.create key (claim scope fp now) s) s).1
  unfolding reserved_or_held held_now
  recreated-IsReserved key scope fp now s h =
      elim (Option-cases (m.create key (claim scope fp now) s)) [
        | inl refused ↦ ground arith
        | inr (s', made) ↦ rw made (created-IsReserved key scope fp now s made)
      ]

  pub take_over-IsReserved :
      (key scope : ℕ) (fp : Option ℕ) (now : ℕ) (s : m.Docs) {d : Doc}
      → m.find key s ≡ some d
      → is_outdated c.version d.schema_version ≡ false
      → (take_over m c key scope fp now s).0 ≡ reserved
      → IsReserved key fp now (take_over m c key scope fp now s).1
  unfolding take_over reserved_or_held held_now
  take_over-IsReserved key scope fp now s {d} found current h =
      elim (Option-cases (m.update_where key is_running (renewed scope fp now) s)) [
        | inl refused ↦ ground arith
        | inr (s', made) ↦
            let (e, was, running, after) =
              m.update_sound key is_running (renewed scope fp now) s made in
            let same : e ≡ d = ground arith in
            rw made
              (renewed scope fp now d, ground (arith, after key), ground arith, refl, refl, current)
      ]

  -- A lookup gives nothing, or the stored document, which is then current, and deletes nothing.
  pub get_full_cases :
      (key : ℕ) (s : m.Docs)
      → ((s' : m.Docs) × (get_full m c key s ≡ (none, s')))
        ⊎ ((d : Doc) × (m.find key s ≡ some d)
            × (is_outdated c.version d.schema_version ≡ false)
            × (get_full m c key s ≡ (some d, s)))
  unfolding get_full unless_outdated
  get_full_cases key s = elim (Option-cases (m.find key s)) [
    | inl absent ↦ inl (s, rw absent refl)
    | inr (d, found) ↦ elim (Bool-cases (is_outdated c.version d.schema_version)) [
      | inl old ↦ inl (m.delete_where key (λ x. true) s, rw found (rw old refl))
      | inr current ↦ inr (d, found, current, get_full-current key s found current)
    ]
  ]

  inspect-IsReserved :
      (key scope : ℕ) (fp : Option ℕ) (now : ℕ) (s : m.Docs)
      → (inspect m c key scope fp now (get_full m c key s)).0 ≡ reserved
      → IsReserved key fp now (inspect m c key scope fp now (get_full m c key s)).1
  unfolding inspect
  inspect-IsReserved key scope fp now s h = elim (get_full_cases key s) [
    | inl (s', e) ↦ rw e (recreated-IsReserved key scope fp now s' (rw e at h))
    | inr (d, found, current, e) ↦ elim (Bool-cases (is_stale c now d)) [
      | inl stale ↦ rw e (
          rw stale
            (take_over-IsReserved key scope fp now s found current (rw stale at (rw e at h))))
      | inr recent ↦ ground arith
    ]
  ]

  pub reserve-IsReserved :
      (key scope : ℕ) (fp : Option ℕ) (now : ℕ) (s : m.Docs)
      → (reserve m c key scope fp now s).0 ≡ reserved
      → IsReserved key fp now (reserve m c key scope fp now s).1
  unfolding reserve claimed
  reserve-IsReserved key scope fp now s h =
      elim (Option-cases (m.create key (claim scope fp now) s)) [
        | inl refused ↦ rw refused (inspect-IsReserved key scope fp now s (rw refused at h))
        | inr (s', made) ↦ rw made (created-IsReserved key scope fp now s made)
      ]
