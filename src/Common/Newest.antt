-- ===== src/Common/Newest.antt =====
-- Lists in the order `created_at DESC`, and the lemmas on `count` with them. The order of elements of one instant
-- is not the source's, which gives them in no order.
use Prim.Native.Nat.{ℕ, ◌≤◌}
use mathlib.Core.Path.{◌≡◌, refl, ◌∙◌}
use mathlib.Core.Bool.{Bool, true, false, ◌&&◌}
use mathlib.Core.List.{List, [], ◌∷◌, ◌++◌, map}
use mathlib.Core.Option.{some}
use native.Mathlib.Omega.{arith}
use matrix_runtime.Common.Tests.{ltb, ltb→lt, if◌then◌else◌, if-intro}
use matrix_runtime.Common.Lists.{All, any, keep, find?, count}

module _ {ℓ} {A : Type ℓ} (at : A → ℕ) where
  unfoldable pub insert_newest : A → List A → List A
  insert_newest a [] = a ∷ []
  insert_newest a (b ∷ bs) =
      let rest = insert_newest a bs in if ltb (at a) (at b) then b ∷ rest else a ∷ b ∷ bs

  unfoldable pub newest_first : List A → List A
  unfolding insert_newest
  newest_first [] = []
  newest_first (a ∷ xs) = insert_newest a (newest_first xs)

  -- No element is older than one that follows it.
  abbrev pub IsNewestFirst : List A → Type 0
  IsNewestFirst [] = Unit
  IsNewestFirst (a ∷ xs) = All (λ b. at b ≤ at a) xs × IsNewestFirst xs

  insert_newest-All :
      (b : ℕ) (a : A) (xs : List A)
      → at a ≤ b
      → All (λ x. at x ≤ b) xs
      → All (λ x. at x ≤ b) (insert_newest a xs)
  unfolding insert_newest
  insert_newest-All b a [] h q = (h, tt)
  insert_newest-All b a (x ∷ xs) h q =
      if-intro (All (λ x. at x ≤ b)) (ltb (at a) (at x))
        (λ e. (q.0, insert_newest-All b a xs h q.1)) (λ e. (h, q))

  All-weaken : (b c : ℕ) (xs : List A) → b ≤ c → All (λ x. at x ≤ b) xs → All (λ x. at x ≤ c) xs
  All-weaken b c [] h q = tt
  All-weaken b c (x ∷ xs) h q = (ground (arith, h, q.0), All-weaken b c xs h q.1)

  insert_newest-IsNewestFirst :
      (a : A) (xs : List A) → IsNewestFirst xs → IsNewestFirst (insert_newest a xs)
  unfolding insert_newest
  insert_newest-IsNewestFirst a [] h = (tt, tt)
  insert_newest-IsNewestFirst a (x ∷ xs) h =
      if-intro IsNewestFirst (ltb (at a) (at x))
        (λ e. (
          insert_newest-All (at x) a xs (ground (arith, ltb→lt (at a) (at x) e)) h.0,
          insert_newest-IsNewestFirst a xs h.1,
        ))
        (λ e. ((below e, All-weaken (at x) (at a) xs (below e) h.0), h))
    where
      below : ltb (at a) (at x) ≡ false → at x ≤ at a
      below e = ground (arith, e)

  pub newest_first-IsNewestFirst : (xs : List A) → IsNewestFirst (newest_first xs)
  unfolding newest_first
  newest_first-IsNewestFirst [] = tt
  newest_first-IsNewestFirst (a ∷ xs) =
      insert_newest-IsNewestFirst a (newest_first xs) (newest_first-IsNewestFirst xs)

  count-insert_newest :
      (p : A → Bool) (a : A) (xs : List A) → count p (insert_newest a xs) ≡ count p (a ∷ xs)
  unfolding insert_newest
  count-insert_newest p a [] = refl
  count-insert_newest p a (b ∷ xs) = ground (arith, count-insert_newest p a xs)

  pub count-newest_first : (p : A → Bool) (xs : List A) → count p (newest_first xs) ≡ count p xs
  unfolding newest_first
  count-newest_first p [] = refl
  count-newest_first p (a ∷ xs) =
      count-insert_newest p a (newest_first xs) ∙ ground (arith, count-newest_first p xs)

module _ {ℓ κ} {A : Type ℓ} {B : Type κ} (f : A → B) where
  pub count-map : (p : B → Bool) (xs : List A) → count p (map f xs) ≡ count (λ a. p (f a)) xs
  count-map p [] = refl
  count-map p (a ∷ xs) = ground (arith, count-map p xs)

  All-map :
      (at : B → ℕ) (b : ℕ) (xs : List A)
      → All (λ x. at (f x) ≤ b) xs
      → All (λ y. at y ≤ b) (map f xs)
  All-map at b [] h = tt
  All-map at b (x ∷ xs) h = (h.0, All-map at b xs h.1)

  pub map-IsNewestFirst :
      (at : B → ℕ) (xs : List A) → IsNewestFirst (λ a. at (f a)) xs → IsNewestFirst at (map f xs)
  map-IsNewestFirst at [] h = tt
  map-IsNewestFirst at (x ∷ xs) h = (All-map at (at (f x)) xs h.0, map-IsNewestFirst at xs h.1)

module _ {ℓ} {A : Type ℓ} where
  pub count-keep : (p q : A → Bool) (xs : List A) → count p (keep q xs) ≡ count (λ a. p a && q a) xs
  count-keep p q [] = refl
  count-keep p q (a ∷ xs) = ground (arith, count-keep p q xs)

  -- An element after elements of which none passes a test.
  pub find?-last :
      (p : A → Bool) (xs : List A) (a : A)
      → any p xs ≡ false
      → p a ≡ true
      → find? p (xs ++ a ∷ []) ≡ some a
  find?-last p [] a h e = ground (arith, e)
  find?-last p (x ∷ xs) a h e = ground (arith, h, find?-last p xs a (ground (arith, h)) e)

  pub count-last :
      (p q : A → Bool) (xs : List A) (a : A)
      → any q xs ≡ false
      → ((x : A) → q x ≡ false → p x ≡ false)
      → p a ≡ true
      → count p (xs ++ a ∷ []) ≡ 1
  count-last p q [] a h i e = ground (arith, e)
  count-last p q (x ∷ xs) a h i e =
      ground (arith, h, i x (ground (arith, h)), count-last p q xs a (ground (arith, h)) i e)
