-- ===== src/Prelude/Maps.antt =====
-- std::map and std::unordered_map with keys that are compared for equality only. A key is a
-- number: an identifier, a pointer's address or an opaque connection ID.
use mathlib.Core.Path.{◌≡◌, refl}
use mathlib.Core.Option.{Option, none, some}
use mathlib.Core.List.{List, [], ◌∷◌}
use Prim.Native.Nat.{ℕ}
use native.Mathlib.Omega.{arith}
use owt_sdk_quic.Prelude.Tests.{◌==◌, if◌then◌else◌}

module _ {κ} {Value : Type κ} where
  unfoldable pub lookup : ℕ → List (ℕ × Value) → Option Value
  lookup wanted [] = none
  lookup wanted ((key, value) ∷ rest) = if key == wanted then some value else lookup wanted rest

  -- `m[wanted] = value`
  unfoldable pub insert : ℕ → Value → List (ℕ × Value) → List (ℕ × Value)
  insert wanted value [] = (wanted, value) ∷ []
  insert wanted value ((key, old) ∷ rest) =
      let later = insert wanted value rest in
      if key == wanted then (wanted, value) ∷ rest else (key, old) ∷ later

  -- `m.erase(wanted)`
  unfoldable pub erase : ℕ → List (ℕ × Value) → List (ℕ × Value)
  erase wanted [] = []
  erase wanted ((key, old) ∷ rest) =
      let later = erase wanted rest in if key == wanted then later else (key, old) ∷ later

  pub lookup-insert :
      (wanted asked : ℕ) (value : Value) (entries : List (ℕ × Value))
      → lookup asked (insert wanted value entries)
        ≡ (if wanted == asked then some value else lookup asked entries)
  unfolding lookup insert
  lookup-insert wanted asked value [] = refl
  lookup-insert wanted asked value ((key, old) ∷ rest) =
      ground (arith, lookup-insert wanted asked value rest)

  pub lookup-erase :
      (wanted asked : ℕ) (entries : List (ℕ × Value))
      → lookup asked (erase wanted entries)
        ≡ (if wanted == asked then none else lookup asked entries)
  unfolding lookup erase
  lookup-erase wanted asked [] = ground arith
  lookup-erase wanted asked ((key, old) ∷ rest) = ground (arith, lookup-erase wanted asked rest)
