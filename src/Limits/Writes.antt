-- ===== src/Limits/Writes.antt =====
-- What an administrator's write to the limits does to the resolutions that follow, in
-- backend/src/services/paymentLimitsService.js.
use stellar_edu_pay.Common.{
  ℕ, suc, true, ◌≡◌, refl, sym, ap, ◌∙◌, [], ◌∷◌, Option, none, some, arith, Option-cases, inl, inr,
}
use stellar_edu_pay.Common.Maps.{Map, lookup, lookup-erase}
use stellar_edu_pay.Limits.Data.{
  finite, unusable, Doc, DocError, Pair, malformed, bounds, Assets, absent, not_object, by_code,
  Source, school_asset, school_default, Limits, take_valid, validate_limit_pair,
  validate_limits_document, validate_entries, validate_default, validate_assets, or_next, pick,
  entry_of,
}
use stellar_edu_pay.Limits.Service.{
  asset_key, Database, Settings, World, cache_key, layered, school_doc, from_database, read_cache,
  resolve_from, resolve_limits, set_school_limits, set_system_limits, store_school, store_system,
  stored,
}

-- A pair that passes the validation is two finite numbers, and is taken.
abbrev pub Is : Pair → Source → Limits → Type 0
Is pair source l = (pair ≡ bounds (finite l.min) (finite l.max)) × (l.source ≡ source)

take_valid-valid :
    (source : Source) (pair : Pair)
    → validate_limit_pair pair ≡ none
    → (l : Limits) × (take_valid source (some pair) ≡ some l) × Is pair source l
unfolding validate_limit_pair
take_valid-valid source malformed h = ground arith
take_valid-valid source (bounds unusable max) h = ground arith
take_valid-valid source (bounds (finite min) unusable) h = ground arith
take_valid-valid source (bounds (finite min) (finite max)) h =
    (record { min = min; max = max; source = source }, rw h refl, (refl, refl))

entry-valid :
    (entries : Map Pair) (asset : ℕ) {pair : Pair}
    → validate_entries entries ≡ none
    → lookup asset entries ≡ some pair
    → validate_limit_pair pair ≡ none
unfolding validate_entries lookup
entry-valid [] asset h found = ground arith
entry-valid ((code, p) ∷ rest) asset {pair} h found = elim (Option-cases (validate_limit_pair p)) [
  | inl fine ↦ ground (arith, entry-valid rest asset {pair = pair})
  | inr (e, wrong) ↦ ground arith
]

-- Both halves of the validation of a document.
or_next-none : (a b : Option DocError) → or_next a b ≡ none → (a ≡ none) × (b ≡ none)
or_next-none none b h = (refl, h)
or_next-none (some e) b h = ground arith

default-valid :
    (default : Option Pair) {pair : Pair}
    → validate_default default ≡ none
    → default ≡ some pair
    → validate_limit_pair pair ≡ none
unfolding validate_default
default-valid none h its = ground arith
default-valid (some p) {pair} h its = let e : p ≡ pair = ground arith in rw (sym e) (ground arith)

assets-valid :
    (default : Option Pair) (assets : Assets) (asset : ℕ) {pair : Pair}
    → validate_assets default assets ≡ none
    → entry_of asset assets ≡ some pair
    → validate_limit_pair pair ≡ none
unfolding validate_assets
assets-valid default absent asset h its = ground arith
assets-valid default not_object asset h its = ground arith
assets-valid none (by_code entries) asset h its = entry-valid entries asset h its
assets-valid (some p) (by_code entries) asset h its = entry-valid entries asset h its

module _ (m : Database) (c : Settings) where
  -- With nothing cached for the school, a resolution gives what the database holds.
  uncached :
      (school : Option ℕ) (asset : Option ℕ) (now : ℕ) (w : World m c)
      → lookup (cache_key school) w.cache ≡ none
      → (resolve_limits m c school asset true now w).0
        ≡ from_database m c school (asset_key c asset) w.db
  unfolding resolve_limits read_cache resolve_from
  uncached school asset now w e = rw e refl

  stored-uncached :
      (school : ℕ) (asset : Option ℕ) (now : ℕ) (db : Option m.Db) (w : World m c)
      → (stored m c school db w).0 ≡ none
      → (resolve_limits m c (some school) asset true now (stored m c school db w).1).0
        ≡ from_database m c (some school) (asset_key c asset) (stored m c school db w).1.db
  unfolding stored
  stored-uncached school asset now none w ok = ground arith
  stored-uncached school asset now (some db) w ok =
      uncached (some school) asset now _
        (ground (arith, lookup-erase (suc school) (suc school) w.cache))

  abbrev Accepts : ℕ → Doc → Option DocError → World m c → Type 0
  Accepts school d e w =
      (e ≡ none)
      × (db : m.Db) × (m.put_school school (some d) w.db ≡ some db)
      × ((store_school m c school d e w).1.db ≡ db)

  store_school-Accepts :
      (school : ℕ) (d : Doc) (e : Option DocError) (w : World m c)
      → (store_school m c school d e w).0 ≡ none
      → Accepts school d e w
  unfolding store_school stored
  store_school-Accepts school d (some e) w ok = ground arith
  store_school-Accepts school d none w ok =
      elim (Option-cases (m.put_school school (some d) w.db)) [
        | inl missing ↦ ground arith
        | inr (db, put) ↦ (refl, db, put, rw put refl)
      ]

  store_school-uncached :
      (school : ℕ) (asset : Option ℕ) (now : ℕ) (d : Doc) (e : Option DocError) (w : World m c)
      → (store_school m c school d e w).0 ≡ none
      → (resolve_limits m c (some school) asset true now (store_school m c school d e w).1).0
        ≡ from_database m c (some school) (asset_key c asset) (store_school m c school d e w).1.db
  unfolding store_school
  store_school-uncached school asset now d (some e) w ok = ground arith
  store_school-uncached school asset now d none w ok = stored-uncached school asset now _ w ok

  -- What a document that passes the validation makes of an asset.
  abbrev Enforces : ℕ → Doc → Limits → Type 0
  Enforces asset d l =
      ((pair : Pair) → entry_of asset d.assets ≡ some pair → Is pair school_asset l)
      × ((pair : Pair)
          → entry_of asset d.assets ≡ none
          → d.default ≡ some pair
          → Is pair school_default l)

  layered-Enforces :
      (asset : ℕ) (d : Doc) (system : Option Doc)
      → validate_limits_document (some d) ≡ none
      → Enforces (c.to_upper_case asset) d (layered c asset (some d) system)
  unfolding validate_limits_document pick
  layered-Enforces asset d system h =
      let (fine, rest) =
        or_next-none (validate_default d.default) (validate_assets d.default d.assets) h in
      (
        λ pair its.
            let (l, taken, is) =
              take_valid-valid school_asset pair
                (assets-valid d.default d.assets (c.to_upper_case asset) rest its) in
            rw its (rw taken is),
        λ pair no its.
            let (l, taken, is) =
              take_valid-valid school_default pair (default-valid d.default fine its) in
            rw no (rw its (rw taken is)),
      )

  -- After an accepted write of a school's limits, a resolution that reaches the database, for an
  -- asset or for the default one, gives exactly the pair that is written under the asset's code in
  -- upper case, and the written default where the document has none there, whatever was cached or
  -- stored before. Upper case is taken twice, by `resolveLimits` and by `_pick`.
  pub set_school_enforced :
      (school : ℕ) (asset : Option ℕ) (now : ℕ) (d : Doc) (w : World m c)
      → (set_school_limits m c school d w).0 ≡ none
      → Enforces
          (c.to_upper_case (asset_key c asset))
          d
          (resolve_limits m c (some school) asset true now (set_school_limits m c school d w).1).0
  unfolding set_school_limits
  set_school_enforced school asset now d w ok =
      let (fine, db, put, same) =
        store_school-Accepts school d (validate_limits_document (some d)) w ok in
      let stands : m.school_limits school
            (store_school m c school d (validate_limits_document (some d)) w).1.db
          ≡ some d =
        ap (λ x. m.school_limits school x) same
        ∙ m.school-put_school school school (some d) w.db put
        ∙ ground arith in
      rw (store_school-uncached school asset now d (validate_limits_document (some d)) w ok)
        (rw stands (layered-Enforces (asset_key c asset) d _ fine))

  store_system-uncached :
      (school : Option ℕ) (asset : Option ℕ) (now : ℕ) (d : Doc) (e : Option DocError)
      (w : World m c)
      → (store_system m c d e w).0 ≡ none
      → (resolve_limits m c school asset true now (store_system m c d e w).1).0
        ≡ layered c (asset_key c asset) (school_doc m c school w.db) (some d)
  unfolding store_system lookup
  store_system-uncached school asset now d (some e) w ok = ground arith
  store_system-uncached none asset now d none w ok =
      uncached none asset now _ refl
      ∙ ap (λ x. layered c (asset_key c asset) none x) (m.system-put_system d w.db)
  store_system-uncached (some school) asset now d none w ok =
      uncached (some school) asset now _ refl
      ∙ ap (λ x. layered c (asset_key c asset) x (m.system_limits (m.put_system d w.db)))
          (m.school-put_system school d w.db)
      ∙ ap (λ x. layered c (asset_key c asset) (m.school_limits school w.db) x)
          (m.system-put_system d w.db)

  -- After an accepted write of the global limits, a resolution for any school, or for none, that
  -- reaches the database layers the school's stored document over the written one, whatever was
  -- cached before.
  set_system_refreshes :
      (school : Option ℕ) (asset : Option ℕ) (now : ℕ) (d : Doc) (w : World m c)
      → (set_system_limits m c d w).0 ≡ none
      → (resolve_limits m c school asset true now (set_system_limits m c d w).1).0
        ≡ layered c (asset_key c asset) (school_doc m c school w.db) (some d)
  unfolding set_system_limits
  set_system_refreshes school asset now d w ok =
      store_system-uncached school asset now d (validate_limits_document (some d)) w ok
