-- ===== src/Limits/Sane.antt =====
-- The limits that backend/src/services/paymentLimitsService.js resolves, and what it means for an
-- amount to pass them.
use stellar_edu_pay.Common.{
  Bool-cases, ℕ, Bool, true, false, ◌≡◌, ◌↔◌, Option, none, some, arith, inl, inr,
}
use stellar_edu_pay.Common.Int.{ℤ, pos, ◌≤ℤ◌, ltb_ℤ}
use stellar_edu_pay.Limits.Data.{
  school_asset, school_default, system_asset, system_default, is_valid, entry_of, finite, unusable,
  Doc, Pair, malformed, bounds, Source, Limits, take_valid, validate_limit_pair, pick, or_else,
  entry_of, compare_against_limits, valid,
}
use stellar_edu_pay.Limits.Service.{
  or_env, asset_key, Database, Settings, World, Cached, layered, read_cache, resolve_from,
  resolve_limits,
}

-- The minimum is not negative, and below the maximum.
abbrev pub IsSane : ℤ → ℤ → Type 0
IsSane min max = (ltb_ℤ min (pos 0) ≡ false) × (ltb_ℤ min max ≡ true)

abbrev pub AreSane : Option Limits → Type 0
AreSane none = Unit
AreSane (some l) = IsSane l.min l.max

take_valid-AreSane : (source : Source) (pair : Option Pair) → AreSane (take_valid source pair)
unfolding validate_limit_pair
take_valid-AreSane source none = tt
take_valid-AreSane source (some malformed) = tt
take_valid-AreSane source (some (bounds unusable max)) = tt
take_valid-AreSane source (some (bounds (finite min) unusable)) = tt
take_valid-AreSane source (some (bounds (finite min) (finite max))) =
    elim (Bool-cases (is_valid (bounds (finite min) (finite max)))) [
      | inl e ↦ rw e (ground arith)
      | inr e ↦ rw e tt
    ]

or_else-AreSane : (a b : Option Limits) → AreSane a → AreSane b → AreSane (or_else a b)
or_else-AreSane none b h k = k
or_else-AreSane (some l) b h k = h

pick-AreSane :
    (upper : ℕ → ℕ) (by_asset by_default : Source) (asset : ℕ) (d : Option Doc)
    → AreSane (pick upper by_asset by_default asset d)
unfolding pick
pick-AreSane upper by_asset by_default asset none = tt
pick-AreSane upper by_asset by_default asset (some d) =
    or_else-AreSane _ _ (take_valid-AreSane by_asset (entry_of (upper asset) d.assets))
      (take_valid-AreSane by_default d.default)

or_env-IsSane :
    (c : Settings) (o : Option Limits)
    → AreSane o
    → IsSane c.env_min c.env_max
    → IsSane (or_env c o).min (or_env c o).max
or_env-IsSane c none h env_sane = env_sane
or_env-IsSane c (some l) h env_sane = h

module _ (m : Database) (c : Settings) where
  layered-IsSane :
      (asset : ℕ) (school system : Option Doc)
      → IsSane c.env_min c.env_max
      → IsSane (layered c asset school system).min (layered c asset school system).max
  layered-IsSane asset school system h =
      or_env-IsSane c _
        (or_else-AreSane _ _ (pick-AreSane c.to_upper_case school_asset school_default asset school)
          (pick-AreSane c.to_upper_case system_asset system_default asset system))
        h

  resolve_from-IsSane :
      (school : Option ℕ) (asset : ℕ) (reachable : Bool) (now : ℕ) (hit : Option Cached)
      (w : World m c)
      → IsSane c.env_min c.env_max
      → let l = (resolve_from m c school asset reachable now hit w).0 in IsSane l.min l.max
  unfolding resolve_from
  resolve_from-IsSane school asset reachable now (some hit) w h =
      layered-IsSane asset hit.school hit.system h
  resolve_from-IsSane school asset false now none w h = h
  resolve_from-IsSane school asset true now none w h = layered-IsSane asset _ _ h

  -- Whatever is cached or stored, valid or not, and whether the database answers or not, the
  -- resolved minimum is not negative and below the resolved maximum, if those of the environment
  -- are.
  resolve_limits-IsSane :
      (school asset : Option ℕ) (reachable : Bool) (now : ℕ) (w : World m c)
      → IsSane c.env_min c.env_max
      → let l = (resolve_limits m c school asset reachable now w).0 in IsSane l.min l.max
  unfolding resolve_limits
  resolve_limits-IsSane school asset reachable now w h =
      resolve_from-IsSane school (asset_key c asset) reachable now (read_cache m c school now w) w h

-- An amount passes exactly if it is positive and between the limits, both included.
compare_exact :
    (a : ℤ) (l : Limits)
    → (compare_against_limits (finite a) l ≡ valid) ↔ ((pos 1 ≤ℤ a) × (l.min ≤ℤ a) × (a ≤ℤ l.max))
unfolding compare_against_limits
compare_exact a l = (λ h. (ground arith, ground arith, ground arith), λ h. ground arith)
