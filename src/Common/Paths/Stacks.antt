-- ===== src/Common/Paths/Stacks.antt =====
-- `filepath.Clean`: the stacks of components that it leaves.
use mathlib.Core.Path.{◌≡◌, refl, ap, ◌∙◌}
use mathlib.Core.Bool.{Bool, true, false, ◌&&◌, ◌||◌, not}
use mathlib.Core.List.{List, [], ◌∷◌, ◌++◌, reverse_aux}
use native.Mathlib.Omega.{arith}
use matrix_runtime.Common.Tests.{if◌then◌else◌, ◌==◌}
use matrix_runtime.Common.Lists.{all}
use matrix_runtime.Common.Strings.{Text, codes, eq_text, eq_text_iff, is_empty, split, grow}
use matrix_runtime.Common.Paths.{slash, pop_component, clean_components}

-- No slash, and none of the names that cleaning takes away.
abbrev pub no_slash : Text → Bool
no_slash = all (λ c. not (c == slash))

abbrev pub is_dotted : Text → Bool
is_dotted t = is_empty t || eq_text t (codes ".") || eq_text t (codes "..")

abbrev pub is_plain : Text → Bool
is_plain t = no_slash t && not (is_dotted t)

-- A stack that cleaning leaves: plain names over `..`, which a rooted path has none of.
abbrev pub is_clean : Bool → List Text → Bool
is_clean rooted [] = true
is_clean rooted (t ∷ stack) =
    (is_plain t && is_clean rooted stack)
    || (eq_text t (codes "..") && not rooted && all (λ u. eq_text u (codes "..")) stack)

-- What one component does to the stack.
abbrev pub pushed : Bool → Text → List Text → List Text
pushed rooted c stack =
    if is_empty c || eq_text c (codes ".")
    then stack
    else if eq_text c (codes "..")
    then pop_component rooted stack
    else c ∷ stack

pub clean_components-append :
    (rooted : Bool) (cs ds stack : List Text)
    → clean_components rooted stack (cs ++ ds)
      ≡ clean_components rooted (clean_components rooted stack cs) ds
unfolding clean_components
clean_components-append rooted [] ds stack = refl
clean_components-append rooted (c ∷ cs) ds stack =
    clean_components-append rooted cs ds (pushed rooted c stack)

all_dots-is_clean :
    (stack : List Text)
    → all (λ u. eq_text u (codes "..")) stack ≡ true
    → is_clean false stack ≡ true
all_dots-is_clean [] h = refl
all_dots-is_clean (t ∷ stack) h = ground arith

dots_on-is_clean :
    (stack : List Text)
    → all (λ u. eq_text u (codes "..")) stack ≡ true
    → is_clean false (codes ".." ∷ stack) ≡ true
unfolding eq_text
dots_on-is_clean stack h = ground (arith, h)

pop-is_clean :
    (rooted : Bool) (stack : List Text)
    → is_clean rooted stack ≡ true
    → is_clean rooted (pop_component rooted stack) ≡ true
pop-is_clean true [] h = refl
pop-is_clean false [] h = dots_on-is_clean [] refl
pop-is_clean true (t ∷ stack) h = ground (arith, h)
pop-is_clean false (t ∷ stack) h =
    ground (arith, h, dots_on-is_clean (t ∷ stack), all_dots-is_clean stack)

pushed-is_clean :
    (rooted : Bool) (c : Text) (stack : List Text)
    → no_slash c ≡ true
    → is_clean rooted stack ≡ true
    → is_clean rooted (pushed rooted c stack) ≡ true
pushed-is_clean rooted c stack n h = ground (arith, pop-is_clean rooted stack h, n)

-- Components without slashes, over a clean stack, give a clean stack.
pub clean_components-is_clean :
    (rooted : Bool) (cs stack : List Text)
    → all no_slash cs ≡ true
    → is_clean rooted stack ≡ true
    → is_clean rooted (clean_components rooted stack cs) ≡ true
unfolding clean_components
clean_components-is_clean rooted [] stack n h = h
clean_components-is_clean rooted (c ∷ cs) stack n h =
    clean_components-is_clean rooted cs (pushed rooted c stack) (ground (arith, n))
      (pushed-is_clean rooted c stack (ground (arith, n)) h)

pub dots-cases :
    (t : Text)
    → eq_text t (codes "..") ≡ true
    → (t ≡ codes "..") × (is_empty t ≡ false) × (eq_text t (codes ".") ≡ false)
unfolding eq_text
dots-cases t h =
    let e = (eq_text_iff t (codes "..")).0 h in
    (e, ap is_empty e, ap (λ u. eq_text u (codes ".")) e)

-- The top of a clean stack is what pushing it gives.
pub pushed_top :
    (rooted : Bool) (t : Text) (stack : List Text)
    → is_clean rooted (t ∷ stack) ≡ true
    → (pushed rooted t stack ≡ t ∷ stack) × (is_clean rooted stack ≡ true)
pushed_top true t stack h = (ground (arith, h, dots-cases t), ground (arith, h, dots-cases t))
pushed_top false t [] h = (ground (arith, h, dots-cases t), refl)
pushed_top false t (u ∷ stack) h = (
  ground (arith, h, dots-cases t),
  ground (arith, h, dots-cases t, all_dots-is_clean (u ∷ stack)),
)

pub clean_components-reverse :
    (rooted : Bool) (stack cs : List Text)
    → is_clean rooted stack ≡ true
    → clean_components rooted [] (reverse_aux stack cs) ≡ clean_components rooted stack cs
unfolding clean_components
clean_components-reverse rooted [] cs h = refl
clean_components-reverse rooted (t ∷ stack) cs h =
    let (top, rest) = pushed_top rooted t stack h in
    clean_components-reverse rooted stack (t ∷ cs) rest
    ∙ ap (λ st. clean_components rooted st cs) top

pub all-no_slash-split : (s : Text) → all no_slash (split slash s) ≡ true
unfolding split
all-no_slash-split [] = refl
all-no_slash-split (c ∷ s) = grown (split slash s) (all-no_slash-split s)
  where
    grown :
        (ps : List Text)
        → all no_slash ps ≡ true
        → all no_slash (if c == slash then [] ∷ ps else grow c ps) ≡ true
    grown [] h = ground (arith, h)
    grown (q ∷ ps) h = ground (arith, h)
