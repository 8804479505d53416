-- ===== src/Store/Sql.antt =====
-- internal/store/store.go: the text of the statements. A `?` is one byte and one code point.
use matrix_runtime.Common.{
  ℕ, ◌+◌, ◌≡◌, refl, sym, ap, ◌∙◌, subst, Bool, true, false, not, List, [], ◌∷◌, ◌++◌, keep, ◌==◌,
  if◌then◌else◌, Bool-cases, inl, inr, arith, Text, codes,
}
use matrix_runtime.Common.Int.{itoa}
use matrix_runtime.Common.Strings.{is_empty, has_prefix, trim_space, split, grow}

-- The loop of rb, after n placeholders.
unfoldable pub number_placeholders : ℕ → Text → Text
unfolding itoa
number_placeholders n [] = []
number_placeholders n (c ∷ q) =
    let next = number_placeholders (n + 1) q in
    let same = number_placeholders n q in
    if c == b'?' then b'$' ∷ (itoa (n + 1) ++ next) else c ∷ same

unfoldable pub rb : Bool → Text → Text
unfolding number_placeholders
rb pg q = if pg then number_placeholders 0 q else q

-- The lines that are no comments, each with its end.
unfoldable pub without_comments : List Text → Text
unfolding trim_space has_prefix
without_comments [] = []
without_comments (l ∷ ls) =
    let rest = without_comments ls in
    if has_prefix (trim_space l) (codes "--") then rest else l ++ 10 ∷ rest

unfoldable pub split_statements : Text → List Text
unfolding split without_comments
split_statements sql_text =
    keep (λ p. not (is_empty (trim_space p))) (split b';' (without_comments (split 10 sql_text)))

-- The parts around the placeholders, with their numbers between them.
unfoldable pub weave : ℕ → List Text → Text
weave n [] = []
weave n (p ∷ []) = p
weave n (p ∷ q ∷ ps) = p ++ b'$' ∷ (itoa (n + 1) ++ weave (n + 1) (q ∷ ps))

weave-grow :
    (n c : ℕ) (p : Text) (ps : List Text) → weave n (grow c (p ∷ ps)) ≡ c ∷ weave n (p ∷ ps)
unfolding weave
weave-grow n c p [] = refl
weave-grow n c p (q ∷ ps) = refl

split-cons : (sep : ℕ) (s : Text) → (p : Text) × (ps : List Text) × (split sep s ≡ p ∷ ps)
unfolding split
split-cons sep [] = ([], [], refl)
split-cons sep (c ∷ s) =
    let (p, ps, e) = split-cons sep s in
    elim (Bool-cases (c == sep)) [
      | inl f ↦ ([], split sep s, ground (arith, f))
      | inr f ↦ (c ∷ p, ps, ground (arith, f, e))
    ]

weave-if :
    (n : ℕ) (b : Bool) (u v : List Text) {x y : Text}
    → x ≡ weave n u
    → y ≡ weave n v
    → (if b then x else y) ≡ weave n (if b then u else v)
weave-if n true u v h g = h
weave-if n false u v h g = g

number_placeholders-weave : (n : ℕ) (q : Text) → number_placeholders n q ≡ weave n (split b'?' q)
unfolding number_placeholders weave split
number_placeholders-weave n [] = refl
number_placeholders-weave n (c ∷ q) =
    let (p, ps, e) = split-cons b'?' q in
    weave-if n (c == b'?') ([] ∷ split b'?' q) (grow c (split b'?' q))
      (ap (λ t. b'$' ∷ (itoa (n + 1) ++ t)) (number_placeholders-weave (n + 1) q)
        ∙ subst (λ l. b'$' ∷ (itoa (n + 1) ++ weave (n + 1) l) ≡ weave n ([] ∷ l)) (sym e) refl)
      (ap (λ t. c ∷ t) (number_placeholders-weave n q)
        ∙ subst (λ l. c ∷ weave n l ≡ weave n (grow c l)) (sym e) (sym (weave-grow n c p ps)))

-- On Postgres a statement is its parts between the question marks, joined by $1, $2 and so on; on SQLite it
-- stays as it is.
pub rb_lem : (pg : Bool) (q : Text) → rb pg q ≡ (if pg then weave 0 (split b'?' q) else q)
unfolding rb
rb_lem true q = number_placeholders-weave 0 q
rb_lem false q = refl
