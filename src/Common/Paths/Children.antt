-- ===== src/Common/Paths/Children.antt =====
-- A plain name joined to a directory is a child of the directory.
use mathlib.Core.Path.{◌≡◌, refl, sym, ap, ◌∙◌, subst}
use mathlib.Core.Bool.{Bool, true, false}
use mathlib.Core.List.{List, [], ◌∷◌, ◌++◌, reverse, reverse_aux, append_assoc}
use native.Mathlib.Omega.{arith}
use matrix_runtime.Common.Lists.{all}
use matrix_runtime.Common.Strings.{Text, is_empty, split, has_prefix}
use matrix_runtime.Common.Paths.{slash, clean_components, join_slash, clean, join_path}
use matrix_runtime.Common.Paths.Stacks.{is_plain, clean_components-append}
use matrix_runtime.Common.Paths.Spelling.{
  is_name, rooted, stack_of, spelt, split-append, split-no_slash, join_slash-begins, clean-names,
  names-reverse, stack_of-is_clean, clean-read,
}

-- A plain name after a slash is pushed on the stack.
stack_of-child :
    (d key : Text)
    → is_empty d ≡ false
    → is_plain key ≡ true
    → (rooted (d ++ slash ∷ key) ≡ rooted d) × (stack_of (d ++ slash ∷ key) ≡ key ∷ stack_of d)
stack_of-child [] key n k = absurd (ground (arith, n))
stack_of-child (x ∷ d) key n k =
    let same : rooted ((x ∷ d) ++ slash ∷ key) ≡ rooted (x ∷ d) = unfold has_prefix in refl in
    (
      same,
      ap (λ b. clean_components b [] (split slash ((x ∷ d) ++ slash ∷ key))) same
          ∙ ap (clean_components (rooted (x ∷ d)) []) (
              split-append (x ∷ d) key
              ∙ ap (λ ps. split slash (x ∷ d) ++ ps) (split-no_slash key (ground (arith, k))))
          ∙ clean_components-append (rooted (x ∷ d)) (split slash (x ∷ d)) (key ∷ []) []
          ∙ last (rooted (x ∷ d)) (stack_of (x ∷ d)),
    )
  where
    last : (r : Bool) (stack : List Text) → clean_components r stack (key ∷ []) ≡ key ∷ stack
    last r stack = unfold clean_components in ground (arith, k)

reverse_aux-append : (xs ys zs : List Text) → reverse_aux xs (ys ++ zs) ≡ reverse_aux xs ys ++ zs
reverse_aux-append [] ys zs = refl
reverse_aux-append (x ∷ xs) ys zs = reverse_aux-append xs (x ∷ ys) zs

join_slash-snoc :
    (c : Text) (cs : List Text) (key : Text)
    → join_slash ((c ∷ cs) ++ key ∷ []) ≡ join_slash (c ∷ cs) ++ slash ∷ key
unfolding join_slash
join_slash-snoc c [] key = refl
join_slash-snoc c (d ∷ cs) key =
    ap (λ j. c ++ slash ∷ j) (join_slash-snoc d cs key)
    ∙ sym (append_assoc c (slash ∷ join_slash (d ∷ cs)) (slash ∷ key))

reverse_aux-cons :
    (st : List Text) (t : Text) (acc : List Text)
    → (c : Text) × (cs : List Text) × (reverse_aux st (t ∷ acc) ≡ c ∷ cs)
reverse_aux-cons [] t acc = (t, acc, refl)
reverse_aux-cons (u ∷ st) t acc = reverse_aux-cons st u (t ∷ acc)

-- The path of a child.
spelt-child :
    (r : Bool) (key t : Text) (st : List Text)
    → all is_name (reverse (t ∷ st)) ≡ true
    → spelt r (reverse (key ∷ t ∷ st)) ≡ spelt r (reverse (t ∷ st)) ++ slash ∷ key
spelt-child r key t st h =
    let (c, cs, e) = reverse_aux-cons st t [] in
    ap (spelt r) (reverse_aux-append st (t ∷ []) (key ∷ []) ∙ ap (λ l. l ++ key ∷ []) e)
    ∙ named r c cs (subst (λ l. all is_name l ≡ true) e h)
    ∙ ap (λ l. spelt r l ++ slash ∷ key) (sym e)
  where
    named :
        (r : Bool) (c : Text) (cs : List Text)
        → all is_name (c ∷ cs) ≡ true
        → spelt r ((c ∷ cs) ++ key ∷ []) ≡ spelt r (c ∷ cs) ++ slash ∷ key
    named true c cs h = ap (λ j. slash ∷ j) (join_slash-snoc c cs key)
    named false c cs h = ground (
      arith,
      (join_slash-begins c cs (ground (arith, h))).1,
      (join_slash-begins c (cs ++ key ∷ []) (ground (arith, h))).1,
      join_slash-snoc c cs key,
    )

-- `filepath.Join` of two elements.
abbrev pub join_two : Text → Text → Text
join_two d key = join_path (d ∷ key ∷ [])

join_two-named :
    (d key : Text)
    → is_empty d ≡ false
    → is_empty key ≡ false
    → join_two d key ≡ clean (d ++ slash ∷ key)
unfolding join_path join_slash
join_two-named [] key d k = absurd (ground (arith, d))
join_two-named (x ∷ d) [] e k = absurd (ground (arith, k))
join_two-named (x ∷ d) (y ∷ key) e k = refl

join_two-bare : (key : Text) → is_empty key ≡ false → join_two [] key ≡ clean key
unfolding join_path join_slash
join_two-bare [] k = absurd (ground (arith, k))
join_two-bare (y ∷ key) k = refl

stack_of-plain : (key : Text) → is_plain key ≡ true → stack_of key ≡ key ∷ []
stack_of-plain [] k = absurd (ground (arith, k))
stack_of-plain (y ∷ key) k =
    ap (clean_components (rooted (y ∷ key)) []) (split-no_slash (y ∷ key) (ground (arith, k)))
    ∙ last (rooted (y ∷ key))
  where
    last : (r : Bool) → clean_components r [] ((y ∷ key) ∷ []) ≡ (y ∷ key) ∷ []
    last r = unfold clean_components in ground (arith, k)

join_two-clean :
    (d key : Text)
    → is_plain key ≡ true
    → (q : Text) × (st : List Text) × (join_two d key ≡ clean q) × (stack_of q ≡ key ∷ st)
join_two-clean [] key k = (key, [], join_two-bare key (ground (arith, k)), stack_of-plain key k)
join_two-clean (x ∷ d) key k = (
  (x ∷ d) ++ slash ∷ key,
  stack_of (x ∷ d),
  join_two-named (x ∷ d) key refl (ground (arith, k)),
  (stack_of-child (x ∷ d) key refl k).1,
)

-- A clean path is not empty.
clean-named : (q t : Text) (st : List Text) → stack_of q ≡ t ∷ st → is_empty (clean q) ≡ false
unfolding clean
clean-named q t st e = ground arith

-- The child of a clean path.
clean-child :
    (q t key : Text) (st : List Text)
    → stack_of q ≡ t ∷ st
    → is_plain key ≡ true
    → clean (clean q ++ slash ∷ key) ≡ clean q ++ slash ∷ key
clean-child q t key st e k =
    let (r, s) = stack_of-child (clean q) key (clean-named q t st e) k in
    let (r', s') = clean-read q in
    let names : all is_name (reverse (t ∷ st)) ≡ true =
      names-reverse (t ∷ st) []
        (subst (λ l. all is_name l ≡ true) e
          (clean-names (rooted q) (stack_of q) (stack_of-is_clean q)))
        refl in
    unfold clean in
    ap (λ b. spelt b (reverse (stack_of (clean q ++ slash ∷ key)))) (r ∙ r')
    ∙ ap (λ l. spelt (rooted q) (reverse l)) (s ∙ ap (λ l. key ∷ l) (s' ∙ e))
    ∙ spelt-child (rooted q) key t st names
    ∙ ap (λ l. spelt (rooted q) (reverse l) ++ slash ∷ key) (sym e)

-- A plain name joined to a directory that was joined from a plain name stands right under it.
pub join_two-child :
    (d top key : Text)
    → is_plain top ≡ true
    → is_plain key ≡ true
    → join_two (join_two d top) key ≡ join_two d top ++ slash ∷ key
join_two-child d top key t k =
    let (q, st, e, s) = join_two-clean d top t in
    ap (λ p. join_two p key) e
    ∙ join_two-named (clean q) key (clean-named q top st s) (ground (arith, k))
    ∙ clean-child q top key st s k
    ∙ ap (λ p. p ++ slash ∷ key) (sym e)
