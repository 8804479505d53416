-- ===== src/Common/Dict/Laws.antt =====
-- The laws of the maps: what each operation shows at every key, and the uniqueness of keys.
use Prim.Native.Nat.{ℕ, ◌+◌, ◌≤◌}
use mathlib.Core.Path.{◌≡◌, refl}
use mathlib.Core.Logic.{◌≢◌}
use mathlib.Core.Bool.{Bool, true, false}
use mathlib.Core.List.{[], ◌∷◌}
use mathlib.Core.Option.{Option, none, some}
use native.Mathlib.Omega.{arith}
use matrix_runtime.Common.Tests.{if◌then◌else◌}
use matrix_runtime.Common.Strings.{Text, eq_text, eq_text_iff}
use matrix_runtime.Common.Dict.{Dict, lookup, insert, modify, retain, count_values, has, IsUnique}

abbrev pub bit : Bool → ℕ
bit true = 1
bit false = 0

-- What `retain` leaves of one entry.
abbrev pub retained {ℓ} : {V : Type ℓ} → (V → Bool) → Option V → Option V
retained p none = none
retained p (some v) = if p v then some v else none

abbrev pub counted {ℓ} : {V : Type ℓ} → (V → Bool) → Option V → ℕ
counted p none = 0
counted p (some v) = bit (p v)

abbrev pub mapped {ℓ} : {V : Type ℓ} → (V → V) → Option V → Option V
mapped f none = none
mapped f (some v) = some (f v)

module _ {ℓ} {V : Type ℓ} where
  pub lookup-insert :
      (k j : Text) (v : V) (d : Dict V)
      → lookup j (insert k v d) ≡ (if eq_text k j then some v else lookup j d)
  unfolding lookup insert
  lookup-insert k j v [] = refl
  lookup-insert k j v ((i, w) ∷ d) =
      ground (arith, eq_text_iff k j, eq_text_iff i k, eq_text_iff i j, lookup-insert k j v d)

  pub lookup-modify :
      (k j : Text) (f : V → V) (d : Dict V)
      → lookup j (modify k f d) ≡ (if eq_text k j then mapped f (lookup j d) else lookup j d)
  unfolding lookup modify
  lookup-modify k j f [] = ground arith
  lookup-modify k j f ((i, w) ∷ d) =
      ground (arith, eq_text_iff k j, eq_text_iff i k, eq_text_iff i j, lookup-modify k j f d)

  pub has-insert :
      (k j : Text) (v : V) (d : Dict V) → has k d ≡ true → has j (insert k v d) ≡ has j d
  has-insert k j v d h = ground (arith, lookup-insert k j v d, eq_text_iff k j)

  pub insert-IsUnique : (k : Text) (v : V) (d : Dict V) → IsUnique d → IsUnique (insert k v d)
  unfolding insert lookup
  insert-IsUnique k v [] u = (refl, tt)
  insert-IsUnique k v ((i, w) ∷ d) u =
      ground (arith, lookup-insert k i v d, eq_text_iff k i, eq_text_iff i k, insert-IsUnique k v d)

  pub modify-IsUnique : (k : Text) (f : V → V) (d : Dict V) → IsUnique d → IsUnique (modify k f d)
  unfolding modify lookup
  modify-IsUnique k f [] u = tt
  modify-IsUnique k f ((i, w) ∷ d) u =
      ground (arith, lookup-modify k i f d, eq_text_iff k i, eq_text_iff i k, modify-IsUnique k f d)

  pub lookup-retain :
      (p : Text → V → Bool) (j : Text) (d : Dict V)
      → IsUnique d
      → lookup j (retain p d) ≡ retained (p j) (lookup j d)
  unfolding retain lookup
  lookup-retain p j [] u = refl
  lookup-retain p j ((i, w) ∷ d) u = ground (arith, eq_text_iff i j, lookup-retain p j d u.1)

  pub retain-IsUnique : (p : Text → V → Bool) (d : Dict V) → IsUnique d → IsUnique (retain p d)
  unfolding retain
  retain-IsUnique p [] u = tt
  retain-IsUnique p ((i, w) ∷ d) u =
      ground (arith, lookup-retain p i d u.1, retain-IsUnique p d u.1)

  -- A new key adds its value to the count; a known one replaces what it counted for.
  pub count-insert :
      (p : V → Bool) (k : Text) (v : V) (d : Dict V)
      → count_values p (insert k v d) + counted p (lookup k d) ≡ count_values p d + bit (p v)
  unfolding count_values insert lookup
  count-insert p k v [] = ground arith
  count-insert p k v ((i, w) ∷ d) = ground (arith, eq_text_iff i k, count-insert p k v d)

  pub count-modify :
      (p : V → Bool) (k : Text) (f : V → V) (d : Dict V)
      → count_values p (modify k f d) + counted p (lookup k d)
        ≡ count_values p d + counted p (mapped f (lookup k d))
  unfolding count_values modify lookup
  count-modify p k f [] = ground arith
  count-modify p k f ((i, w) ∷ d) = ground (arith, eq_text_iff i k, count-modify p k f d)

  -- A value that passes the test is counted.
  pub holder_counted :
      (p : V → Bool) (k : Text) (v : V) (d : Dict V)
      → lookup k d ≡ some v
      → bit (p v) ≤ count_values p d
  unfolding count_values lookup
  holder_counted p k v [] h = absurd (cc h)
  holder_counted p k v ((i, w) ∷ d) h = ground (arith, holder_counted p k v d)

  pub mapped_inv :
      (f : V → V) (o : Option V) {v : V} → mapped f o ≡ some v → (u : V) × (o ≡ some u) × (f u ≡ v)
  mapped_inv f none h = absurd (cc h)
  mapped_inv f (some u) h = (u, refl, cc h)

  pub retained_inv :
      (p : V → Bool) (o : Option V) {v : V} → retained p o ≡ some v → (o ≡ some v) × (p v ≡ true)
  retained_inv p none h = absurd (cc h)
  retained_inv p (some u) h = ground arith

  pub modify_id : (k : Text) (d : Dict V) → modify k (λ v. v) d ≡ d
  unfolding modify
  modify_id k [] = refl
  modify_id k ((i, w) ∷ d) = ground (arith, modify_id k d)

  pub lookup-insert_self : (k : Text) (v : V) (d : Dict V) → lookup k (insert k v d) ≡ some v
  lookup-insert_self k v d = ground (arith, lookup-insert k k v d, eq_text_iff k k)

  pub lookup-insert_ne :
      (k j : Text) (v : V) (d : Dict V) → k ≢ j → lookup j (insert k v d) ≡ lookup j d
  lookup-insert_ne k j v d n = ground (arith, lookup-insert k j v d, eq_text_iff k j)
