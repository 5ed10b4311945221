-- ===== src/Common/Maps.antt =====
-- JavaScript's `Map` with keys that are only compared, as an association list.
use Prim.Native.Nat.{ℕ}
use mathlib.Core.Path.{◌≡◌, refl}
use mathlib.Core.List.{List, [], ◌∷◌}
use mathlib.Core.Option.{Option, none, some}
use native.Mathlib.Omega.{arith}
use stellar_edu_pay.Common.Tests.{◌==◌, if◌then◌else◌}

abbrev pub Map {ℓ} : Type ℓ → Type ℓ
Map V = List (ℕ × V)

module _ {ℓ} {V : Type ℓ} where
  -- `m.set(k, v)`
  unfoldable pub insert : ℕ → V → Map V → Map V
  insert k v [] = (k, v) ∷ []
  insert k v ((key, old) ∷ rest) = if key == k then (k, v) ∷ rest else (key, old) ∷ insert k v rest

  -- `m.delete(k)`
  unfoldable pub erase : ℕ → Map V → Map V
  erase k [] = []
  erase k ((key, old) ∷ rest) = if key == k then erase k rest else (key, old) ∷ erase k rest

  -- `m.get(k)`
  unfoldable pub lookup : ℕ → Map V → Option V
  lookup k [] = none
  lookup k ((key, held) ∷ rest) = if key == k then some held else lookup k rest

  pub lookup-erase :
      (k other : ℕ) (m : Map V)
      → lookup other (erase k m) ≡ (if k == other then none else lookup other m)
  unfolding lookup erase
  lookup-erase k other [] = ground arith
  lookup-erase k other ((key, held) ∷ rest) = ground (arith, lookup-erase k other rest)

  pub lookup-insert :
      (k other : ℕ) (v : V) (m : Map V)
      → lookup other (insert k v m) ≡ (if k == other then some v else lookup other m)
  unfolding lookup insert
  lookup-insert k other v [] = refl
  lookup-insert k other v ((key, held) ∷ rest) = ground (arith, lookup-insert k other v rest)
