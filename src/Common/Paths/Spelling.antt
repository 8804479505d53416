-- ===== src/Common/Paths/Spelling.antt =====
-- `filepath.Clean`: what is spelt from clean components is read back, so that cleaning is idempotent.
use mathlib.Core.Path.{◌≡◌, refl, ap, ◌∙◌}
use mathlib.Core.Logic.{inl, inr}
use mathlib.Core.Bool.{Bool, true, false, ◌&&◌, not}
use mathlib.Core.List.{List, [], ◌∷◌, ◌++◌, reverse, reverse_aux}
use native.Mathlib.Omega.{arith}
use matrix_runtime.Common.Tests.{if◌then◌else◌, ◌==◌, Bool-cases}
use matrix_runtime.Common.Lists.{all}
use matrix_runtime.Common.Strings.{Text, codes, eq_text, is_empty, split, has_prefix, grow}
use matrix_runtime.Common.Paths.{slash, clean_components, join_slash, clean}
use matrix_runtime.Common.Paths.Stacks.{
  no_slash, is_clean, pushed_top, dots-cases, clean_components-is_clean, clean_components-reverse,
  all-no_slash-split,
}

split-cons : (s : Text) → (p : Text) × (ps : List Text) × (split slash s ≡ p ∷ ps)
unfolding split
split-cons [] = ([], [], refl)
split-cons (c ∷ s) = grown (split slash s)
  where
    grown :
        (qs : List Text)
        → (p : Text) × (ps : List Text) × ((if c == slash then [] ∷ qs else grow c qs) ≡ p ∷ ps)
    grown [] = elim (Bool-cases (c == slash)) [
      | inl e ↦ ([], [], ground (arith, e))
      | inr e ↦ (c ∷ [], [], ground (arith, e))
    ]
    grown (q ∷ qs) = elim (Bool-cases (c == slash)) [
      | inl e ↦ ([], q ∷ qs, ground (arith, e))
      | inr e ↦ (c ∷ q, qs, ground (arith, e))
    ]

-- A slash separates the components before it from those after it.
pub split-append : (d s : Text) → split slash (d ++ slash ∷ s) ≡ split slash d ++ split slash s
unfolding split
split-append [] s = refl
split-append (c ∷ d) s = let (p, ps, e) = split-cons d in ground (arith, split-append d s, e)

pub split-no_slash : (c : Text) → no_slash c ≡ true → split slash c ≡ c ∷ []
unfolding split
split-no_slash [] h = refl
split-no_slash (x ∷ c) h = ground (arith, h, split-no_slash c)

abbrev pub is_name : Text → Bool
is_name c = no_slash c && not (is_empty c)

split-join_slash :
    (c : Text) (cs : List Text)
    → all is_name (c ∷ cs) ≡ true
    → split slash (join_slash (c ∷ cs)) ≡ c ∷ cs
unfolding join_slash
split-join_slash c [] h = split-no_slash c (ground (arith, h))
split-join_slash c (d ∷ cs) h =
    split-append c (join_slash (d ∷ cs))
    ∙ ap (λ ps. ps ++ split slash (join_slash (d ∷ cs))) (split-no_slash c (ground (arith, h)))
    ∙ ap (λ ps. c ∷ ps) (split-join_slash d cs (ground (arith, h)))

abbrev pub rooted : Text → Bool
rooted p = has_prefix p (slash ∷ [])

abbrev pub stack_of : Text → List Text
stack_of p = clean_components (rooted p) [] (split slash p)

-- A path from its components.
abbrev pub spelt : Bool → List Text → Text
spelt r cs =
    if r
    then slash ∷ join_slash cs
    else if is_empty (join_slash cs)
    then codes "."
    else join_slash cs

pub join_slash-begins :
    (c : Text) (cs : List Text)
    → is_name c ≡ true
    → (rooted (join_slash (c ∷ cs)) ≡ false) × (is_empty (join_slash (c ∷ cs)) ≡ false)
unfolding join_slash has_prefix
join_slash-begins [] cs h = absurd (ground (arith, h))
join_slash-begins (x ∷ c) [] h = (ground (arith, h), refl)
join_slash-begins (x ∷ c) (d ∷ cs) h = (ground (arith, h), refl)

-- What is spelt is read back.
empty-read :
    (r : Bool) → (rooted (spelt r []) ≡ r) × (clean_components r [] (split slash (spelt r [])) ≡ [])
unfolding clean_components join_slash split has_prefix eq_text
empty-read true = (refl, refl)
empty-read false = (refl, refl)

names-read :
    (r : Bool) (c : Text) (cs : List Text)
    → all is_name (c ∷ cs) ≡ true
    → (rooted (spelt r (c ∷ cs)) ≡ r)
      × (clean_components r [] (split slash (spelt r (c ∷ cs))) ≡ clean_components r [] (c ∷ cs))
names-read true c cs h = (
  unfold has_prefix in refl,
  unfold split clean_components in ap (clean_components true []) (split-join_slash c cs h),
)
names-read false c cs h =
    let (relative, named) = join_slash-begins c cs (ground (arith, h)) in
    let e : spelt false (c ∷ cs) ≡ join_slash (c ∷ cs) = ground (arith, named) in
    (
      ap rooted e ∙ relative,
      ap (λ p. clean_components false [] (split slash p)) e
          ∙ ap (clean_components false []) (split-join_slash c cs h),
    )

spelt-read :
    (r : Bool) (cs : List Text)
    → all is_name cs ≡ true
    → (rooted (spelt r cs) ≡ r)
      × (clean_components r [] (split slash (spelt r cs)) ≡ clean_components r [] cs)
unfolding clean_components
spelt-read r [] h = empty-read r
spelt-read r (c ∷ cs) h = names-read r c cs h

pub clean-names :
    (r : Bool) (stack : List Text) → is_clean r stack ≡ true → all is_name stack ≡ true
unfolding eq_text
clean-names r [] h = refl
clean-names r (t ∷ stack) h =
    let rest = clean-names r stack (pushed_top r t stack h).1 in
    elim (Bool-cases (eq_text t (codes ".."))) [
      | inl e ↦ ground (arith, rest, ap is_name (dots-cases t e).0)
      | inr e ↦ ground (arith, rest, h, e)
    ]

pub names-reverse :
    (xs acc : List Text)
    → all is_name xs ≡ true
    → all is_name acc ≡ true
    → all is_name (reverse_aux xs acc) ≡ true
names-reverse [] acc h g = g
names-reverse (x ∷ xs) acc h g =
    names-reverse xs (x ∷ acc) (ground (arith, h)) (ground (arith, h, g))

pub stack_of-is_clean : (p : Text) → is_clean (rooted p) (stack_of p) ≡ true
stack_of-is_clean p =
    clean_components-is_clean (rooted p) (split slash p) [] (all-no_slash-split p) refl

-- Cleaning again changes nothing.
pub clean-read : (p : Text) → (rooted (clean p) ≡ rooted p) × (stack_of (clean p) ≡ stack_of p)
unfolding clean
clean-read p =
    let good = stack_of-is_clean p in
    let (r, e) =
      spelt-read (rooted p) (reverse (stack_of p))
        (names-reverse (stack_of p) [] (clean-names (rooted p) (stack_of p) good) refl) in
    (
      r,
      ap (λ b. clean_components b [] (split slash (clean p))) r
          ∙ e
          ∙ clean_components-reverse (rooted p) (stack_of p) [] good,
    )
