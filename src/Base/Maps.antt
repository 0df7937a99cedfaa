-- ===== src/Base/Maps.antt =====
-- Go maps as association lists with one entry for a key. `lookup` of a missing key is `none`.
use mathlib.Core.Path.{◌≡◌, refl}
use mathlib.Core.List.{List, [], ◌∷◌}
use mathlib.Core.Option.{Option, none, some}
use mathlib.Core.Logic.{inl, inr}
use native.Mathlib.Omega.{arith}
use open_model_gateway.Base.Tests.{if◌then◌else◌, Bool-cases}
use open_model_gateway.Base.Keys.{Eq, ◌==◌}

abbrev pub GoMap {ℓ κ} : Type ℓ → Type κ → Type (ℓ ⊔ κ)
GoMap K V = List (K × V)

module _ {ℓ κ} {K : Type ℓ} {V : Type κ} ⦃e : Eq K⦄ where
  unfoldable pub lookup : K → GoMap K V → Option V
  lookup key [] = none
  lookup key ((x, value) ∷ rest) = if x == key then some value else lookup key rest

  -- m[key] = new
  unfoldable pub insert : K → V → GoMap K V → GoMap K V
  insert key new [] = (key, new) ∷ []
  insert key new ((x, value) ∷ rest) =
      if x == key then (key, new) ∷ rest else (x, value) ∷ insert key new rest

  -- delete(m, key)
  unfoldable pub delete : K → GoMap K V → GoMap K V
  delete key [] = []
  delete key ((x, value) ∷ rest) =
      let others = delete key rest in if x == key then others else (x, value) ∷ others

  -- A deleted key is gone, and the others stay.
  pub lookup-delete :
      (key other : K) (entries : GoMap K V)
      → lookup other (delete key entries) ≡ (if key == other then none else lookup other entries)
  unfolding lookup delete
  lookup-delete key other [] = elim (Bool-cases (key == other)) [ inl h ↦ rw h | inr h ↦ rw h ]
  lookup-delete key other ((x, value) ∷ rest) =
      ground (
        lookup-delete key other rest,
        arith,
        e.beq_iff x other,
        e.beq_iff key other,
        e.beq_iff x key,
      )

  pub lookup-insert :
      (key other : K) (new : V) (entries : GoMap K V)
      → lookup other (insert key new entries)
        ≡ (if key == other then some new else lookup other entries)
  unfolding lookup insert
  lookup-insert key other new [] = refl
  lookup-insert key other new ((x, value) ∷ rest) = ground (
    lookup-insert key other new rest,
    arith,
    e.beq_iff x other,
    e.beq_iff key other,
    e.beq_iff x key,
  )
