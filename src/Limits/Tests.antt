-- ===== src/Limits/Tests.antt =====
-- A database in memory, and the theorems on limits at concrete documents.
use stellar_edu_pay.Common.{
  ℕ, true, ◌≡◌, refl, sym, [], ◌∷◌, Option, none, some, arith, ◌==◌, if◌then◌else◌, Option-cases,
  inl, inr,
}
use stellar_edu_pay.Common.Int.{pos}
use stellar_edu_pay.Common.Maps.{Map, lookup, insert, erase, lookup-insert}
use stellar_edu_pay.Limits.Data.{
  finite, Doc, Pair, bounds, by_code, school_asset, school_default, validate_limits_document,
  validate_limit_pair, entry_of, compare_against_limits, amount_too_high, pick,
}
use stellar_edu_pay.Limits.Service.{
  Database, Settings, World, resolve_limits, set_school_limits, read_cache, validate_payment_amount,
}
use stellar_edu_pay.Limits.Writes.{Is, set_school_enforced}

abbrev flatten : Option (Option Doc) → Option Doc
flatten none = none
flatten (some d) = d

-- The schools with their documents, and the global document.
abbrev Memory : Type 0
Memory = Map (Option Doc) × Option Doc

abbrev put_in : ℕ → Option Doc → Option (Option Doc) → Memory → Option Memory
put_in id d none db = none
put_in id d (some old) (schools, system) = some (insert id d schools, system)

school-put_in :
    (id j : ℕ) (d : Option Doc) (db : Memory) {db' : Memory}
    → put_in id d (lookup id db.0) db ≡ some db'
    → flatten (lookup j db'.0) ≡ (if id == j then d else flatten (lookup j db.0))
school-put_in id j d db {db'} h = elim (Option-cases (lookup id db.0)) [
  | inl missing ↦ absurd (ground arith)
  | inr (old, found) ↦
      let e : insert id d db.0 ≡ db'.0 = ground arith in
      rw (sym e) (rw (lookup-insert id j d db.0) (ground arith))
]

system-put_in :
    (id : ℕ) (d : Option Doc) (db : Memory) {db' : Memory}
    → put_in id d (lookup id db.0) db ≡ some db'
    → db'.1 ≡ db.1
system-put_in id d db {db'} h = elim (Option-cases (lookup id db.0)) [
  | inl missing ↦ absurd (ground arith)
  | inr (old, found) ↦ ground arith
]

abbrev memory : Database
memory = record {
  Db = Memory;
  school_limits = λ school db. flatten (lookup school db.0);
  system_limits = λ db. db.1;
  put_school = λ school d db. put_in school d (lookup school db.0) db;
  put_system = λ d db. (db.0, some d);
  school-put_school = school-put_in;
  system-put_school = system-put_in;
  system-put_system = λ d db. refl;
  school-put_system = λ j d db. refl;
}

-- The asset 8 is 7 in lower case.
abbrev settings : Settings
settings = record {
  env_min = pos 1;
  env_max = pos 100_000;
  cache_ttl_ms = 30_000;
  default_asset = 9;
  to_upper_case = λ a. if a == 8 then 7 else a;
}

abbrev doc : Doc
doc = record {
  default = some (bounds (finite (pos 0)) (finite (pos 400)));
  assets = by_code ((7, bounds (finite (pos 5)) (finite (pos 50))) ∷ []);
}

-- School 4 exists and has no limits of its own.
abbrev world : World memory settings
world = record { db = ((4, none) ∷ [], none); cache = [] }

too_high :
    (validate_payment_amount memory settings
      (finite (pos 60))
      (some 4)
      (some 8)
      true
      10
      (set_school_limits memory settings 4 doc world).1).0
    ≡ amount_too_high
unfolding validate_payment_amount compare_against_limits read_cache lookup set_school_limits
    validate_limits_document validate_limit_pair erase pick insert
too_high = refl

-- A pair under a code in lower case is stored and never taken.
abbrev lower : Doc
lower = record {
  default = none;
  assets = by_code ((8, bounds (finite (pos 5)) (finite (pos 50))) ∷ []);
}

lower_ignored :
    (resolve_limits memory settings
      (some 4)
      (some 8)
      true
      10
      (set_school_limits memory settings 4 lower world).1).0.max
    ≡ pos 100_000
unfolding resolve_limits read_cache lookup set_school_limits validate_limits_document
    validate_limit_pair erase pick insert
lower_ignored = refl

set_school_enforced_example :
    let l =
      (resolve_limits memory settings
        (some 4)
        (some 8)
        true
        10
        (set_school_limits memory settings 4 doc world).1).0 in
    ((pair : Pair) → entry_of 7 doc.assets ≡ some pair → Is pair school_asset l)
    × ((pair : Pair)
        → entry_of 7 doc.assets ≡ none
        → doc.default ≡ some pair
        → Is pair school_default l)
unfolding set_school_limits validate_limits_document validate_limit_pair lookup
set_school_enforced_example = set_school_enforced memory settings 4 (some 8) 10 doc world refl
