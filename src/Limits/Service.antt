-- ===== src/Limits/Service.antt =====
-- The state of backend/src/services/paymentLimitsService.js: its cache, and the database behind it,
-- whose documents are read and replaced through mongoose as documented.
use stellar_edu_pay.Common.{
  ℕ, suc, ◌+◌, Bool, true, false, ◌≡◌, [], Option, none, some, leb, ◌==◌, if◌then◌else◌,
}
use stellar_edu_pay.Common.Int.{ℤ}
use stellar_edu_pay.Common.Maps.{Map, lookup, insert, erase}
use stellar_edu_pay.Limits.Data.{
  Value, Doc, DocError, validate_limits_document, env, school_asset, school_default, system_asset,
  system_default, Limits, pick, or_else, Verdict, compare_against_limits,
}

-- The limits documents in the database. `none` is a failure for `put_school`, which finds no such
-- school, and a missing document elsewhere.
pub record Database : Type 1 where
  pub Db : Type 0
  -- `School.findOne({ schoolId })`, then `school?.settings?.paymentLimits || null`
  pub school_limits : ℕ → Db → Option Doc
  -- `SystemConfig.get('paymentLimits')`
  pub system_limits : Db → Option Doc
  -- `School.findOneAndUpdate({ schoolId }, …)` with `$set` or `$unset`
  pub put_school : ℕ → Option Doc → Db → Option Db
  -- `SystemConfig.set('paymentLimits', doc)`
  pub put_system : Doc → Db → Db
  pub school-put_school :
      (id j : ℕ) (d : Option Doc) (db : Db) {db' : Db}
      → put_school id d db ≡ some db'
      → school_limits j db' ≡ (if id == j then d else school_limits j db)
  pub system-put_school :
      (id : ℕ) (d : Option Doc) (db : Db) {db' : Db}
      → put_school id d db ≡ some db'
      → system_limits db' ≡ system_limits db
  pub system-put_system : (d : Doc) (db : Db) → system_limits (put_system d db) ≡ some d
  pub school-put_system :
      (j : ℕ) (d : Doc) (db : Db) → school_limits j (put_system d db) ≡ school_limits j db

pub record Cached : Type 0 where
  pub school : Option Doc
  pub system : Option Doc
  pub expires_at : ℕ

-- What the environment fixes: `ENV_LIMITS`, `CACHE_TTL_MS` and `DEFAULT_ASSET`; and `toUpperCase`.
pub record Settings : Type 0 where
  pub env_min : ℤ
  pub env_max : ℤ
  pub cache_ttl_ms : ℕ
  pub default_asset : ℕ
  pub to_upper_case : ℕ → ℕ

abbrev pub env_limits : Settings → Limits
env_limits c = record { min = c.env_min; max = c.env_max; source = env }

-- `_cacheKey(schoolId)`; 0 is '__global__'.
abbrev pub cache_key : Option ℕ → ℕ
cache_key none = 0
cache_key (some school) = suc school

abbrev recent : ℕ → Option Cached → Option Cached
recent now none = none
recent now (some hit) = if leb hit.expires_at now then none else some hit

abbrev pub or_env : Settings → Option Limits → Limits
or_env c none = env_limits c
or_env c (some l) = l

-- The school's document before the global one, and the environment after both.
abbrev pub layered : Settings → ℕ → Option Doc → Option Doc → Limits
layered c asset school system = or_env c (
    or_else (pick c.to_upper_case school_asset school_default asset school)
      (pick c.to_upper_case system_asset system_default asset system))

-- `(asset || DEFAULT_ASSET).toUpperCase()`
abbrev pub asset_key : Settings → Option ℕ → ℕ
asset_key c none = c.to_upper_case c.default_asset
asset_key c (some asset) = c.to_upper_case asset

module _ (m : Database) (c : Settings) where
  pub record World : Type 0 where
    pub db : m.Db
    pub cache : Map Cached

  -- `_readCache(schoolId)`.
  unfoldable pub read_cache : Option ℕ → ℕ → World → Option Cached
  read_cache school now w = recent now (lookup (cache_key school) w.cache)

  abbrev pub school_doc : Option ℕ → m.Db → Option Doc
  school_doc none db = none
  school_doc (some school) db = m.school_limits school db

  -- The limits as the database holds them.
  abbrev pub from_database : Option ℕ → ℕ → m.Db → Limits
  from_database school asset db = layered c asset (school_doc school db) (m.system_limits db)

  unfoldable pub resolve_from : Option ℕ → ℕ → Bool → ℕ → Option Cached → World → Limits × World
  resolve_from school asset reachable now (some hit) w = (layered c asset hit.school hit.system, w)
  resolve_from school asset false now none w = (env_limits c, w)
  resolve_from school asset true now none w = (
    from_database school asset w.db,
    record w {
      cache =
          insert (cache_key school)
            (record {
              school = school_doc school w.db;
              system = m.system_limits w.db;
              expires_at = now + c.cache_ttl_ms;
            })
            w.cache;
    },
  )

  -- `resolveLimits({ schoolId, asset })`, where the database answers in time or not.
  unfoldable pub resolve_limits : Option ℕ → Option ℕ → Bool → ℕ → World → Limits × World
  unfolding resolve_from
  resolve_limits school asset reachable now w =
      resolve_from school (asset_key c asset) reachable now (read_cache school now w) w

  -- `validatePaymentAmount(amount, { schoolId, asset })`, without the metric of a refusal.
  unfoldable pub validate_payment_amount :
      Value → Option ℕ → Option ℕ → Bool → ℕ → World → Verdict × World
  unfolding resolve_limits
  validate_payment_amount amount school asset reachable now w =
      let (limits, w') = resolve_limits school asset reachable now w in
      (compare_against_limits amount limits, w')

  -- What a write throws.
  pub data WriteError : Type 0 where
    invalid_payment_limits : DocError → WriteError
    not_found : WriteError

  unfoldable pub store_system : Doc → Option DocError → World → Option WriteError × World
  store_system d (some e) w = (some (invalid_payment_limits e), w)
  store_system d none w = (none, record { db = m.put_system d w.db; cache = [] })

  -- `setSystemLimits(doc)`, which drops the whole cache.
  unfoldable pub set_system_limits : Doc → World → Option WriteError × World
  unfolding store_system
  set_system_limits d w = store_system d (validate_limits_document (some d)) w

  unfoldable pub stored : ℕ → Option m.Db → World → Option WriteError × World
  stored school none w = (some not_found, w)
  stored school (some db) w =
      (none, record { db = db; cache = erase (cache_key (some school)) w.cache })

  -- `clearSchoolLimits(schoolId)`.
  unfoldable pub clear_school_limits : ℕ → World → Option WriteError × World
  unfolding stored
  clear_school_limits school w = stored school (m.put_school school none w.db) w

  unfoldable pub store_school : ℕ → Doc → Option DocError → World → Option WriteError × World
  unfolding stored
  store_school school d (some e) w = (some (invalid_payment_limits e), w)
  store_school school d none w = stored school (m.put_school school (some d) w.db) w

  -- `setSchoolLimits(schoolId, doc)`.
  unfoldable pub set_school_limits : ℕ → Doc → World → Option WriteError × World
  unfolding store_school
  set_school_limits school d w = store_school school d (validate_limits_document (some d)) w
