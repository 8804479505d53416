-- ===== src/Common/Dict.antt =====
-- A Go map with string keys, as an association list in which a key stands at most once.
pub mod Laws
use Prim.Native.Nat.{ℕ, suc, ◌+◌}
use mathlib.Core.Path.{◌≡◌, refl}
use mathlib.Core.Bool.{Bool, true, false}
use mathlib.Core.List.{List, [], ◌∷◌}
use mathlib.Core.Option
use mathlib.Core.Option.{Option, none, some}
use native.Mathlib.Omega.{arith}
use matrix_runtime.Common.Tests.{if◌then◌else◌, is_some}
use matrix_runtime.Common.Strings.{Text, eq_text, eq_text_iff}

abbrev pub Dict {ℓ} : Type ℓ → Type ℓ
Dict V = List (Text × V)

module _ {ℓ} {V : Type ℓ} where
  -- `v, ok := m[k]`
  unfoldable pub lookup : Text → Dict V → Option V
  lookup k [] = none
  lookup k ((j, v) ∷ d) = let rest = lookup k d in if eq_text j k then some v else rest

  -- `m[k] = v`
  unfoldable pub insert : Text → V → Dict V → Dict V
  insert k v [] = (k, v) ∷ []
  insert k v ((j, w) ∷ d) =
      let rest = insert k v d in if eq_text j k then (j, v) ∷ d else (j, w) ∷ rest

  -- An update of the object that `m[k]` points to; nothing when the key is missing.
  unfoldable pub modify : Text → (V → V) → Dict V → Dict V
  modify k f [] = []
  modify k f ((j, w) ∷ d) =
      let rest = modify k f d in if eq_text j k then (j, f w) ∷ d else (j, w) ∷ rest

  -- `for k, v := range m { if !p(k, v) { delete(m, k) } }`
  unfoldable pub retain : (Text → V → Bool) → Dict V → Dict V
  retain p [] = []
  retain p ((j, w) ∷ d) = let rest = retain p d in if p j w then (j, w) ∷ rest else rest

  -- How many values pass a test.
  unfoldable pub count_values : (V → Bool) → Dict V → ℕ
  count_values p [] = 0
  count_values p ((j, w) ∷ d) = let rest = count_values p d in if p w then suc rest else rest

  abbrev pub has : Text → Dict V → Bool
  has k d = is_some (lookup k d)

  -- No key stands twice.
  abbrev pub IsUnique : Dict V → Type 0
  IsUnique [] = Unit
  IsUnique ((j, w) ∷ d) = (has j d ≡ false) × IsUnique d
