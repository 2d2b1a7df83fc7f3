-- ===== src/Base/Dict.antt =====
-- A Go map with integer keys as an association list.
use Prim.Native.Nat.{ℕ}
use mathlib.Core.Path.{◌≡◌, refl}
use mathlib.Core.Option.{Option, none, some}
use mathlib.Core.List.{List, [], ◌∷◌}
use native.Mathlib.Omega.{arith}
use libfabric_go.Base.Tests.{◌==◌, if◌then◌else◌}

module _ {ℓ} {V : Type ℓ} where
  -- The value of the first entry with the key.
  unfoldable pub lookup : ℕ → List (ℕ × V) → Option V
  lookup key [] = none
  lookup key (entry ∷ entries) =
      let later = lookup key entries in if entry.0 == key then some entry.1 else later

  -- The entry takes the place of the old one, or the last place.
  unfoldable pub insert : ℕ → V → List (ℕ × V) → List (ℕ × V)
  insert key value [] = (key, value) ∷ []
  insert key value (entry ∷ entries) =
      let later = insert key value entries in
      if entry.0 == key then (key, value) ∷ entries else entry ∷ later

  unfoldable pub delete : ℕ → List (ℕ × V) → List (ℕ × V)
  delete key [] = []
  delete key (entry ∷ entries) =
      let later = delete key entries in if entry.0 == key then later else entry ∷ later

  pub lookup-insert :
      (key wanted : ℕ) (value : V) (entries : List (ℕ × V))
      → lookup wanted (insert key value entries)
        ≡ (if key == wanted then some value else lookup wanted entries)
  unfolding lookup insert
  lookup-insert key wanted value [] = refl
  lookup-insert key wanted value (entry ∷ entries) =
      ground (arith, lookup-insert key wanted value entries)

  pub lookup-delete :
      (key wanted : ℕ) (entries : List (ℕ × V))
      → lookup wanted (delete key entries) ≡ (if key == wanted then none else lookup wanted entries)
  unfolding lookup delete
  lookup-delete key wanted [] = ground arith
  lookup-delete key wanted (entry ∷ entries) = ground (arith, lookup-delete key wanted entries)
