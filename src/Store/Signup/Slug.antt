-- ===== src/Store/Signup/Slug.antt =====
-- The loop for a slug ends: among one more candidate than there are workspaces one is not taken.
use matrix_runtime.Common.{
  ℕ, zero, suc, ◌+◌, ◌≤◌, ◌<◌, ◌≡◌, ◌≢◌, refl, ap, ◌∙◌, true, not, ◌||◌, List, [], ◌∷◌, ◌++◌,
  Option, none, some, keep, length, is_some, length-append, Bool-cases, inl, inr, arith, Text,
}
use matrix_runtime.Common.Int.{itoa}
use matrix_runtime.Common.Int.Digits.{itoa_inj}
use matrix_runtime.Common.Strings.{eq_text, eq_text_iff}
use matrix_runtime.Store.Tables.{Workspace, Faults}
use matrix_runtime.Store.Signup.{candidate, is_taken, search_slug, unique_slug}

append_inj : (base s t : Text) → base ++ s ≡ base ++ t → s ≡ t
append_inj [] s t h = h
append_inj (c ∷ base) s t h = append_inj base s t (cc h)

candidate_inj : (base : Text) (i j : ℕ) → candidate base i ≡ candidate base j → i ≡ j
candidate_inj base zero zero h = refl
candidate_inj base zero (suc j) h =
    absurd (ground (arith, ap length h, length-append base (b'-' ∷ itoa (suc j))))
candidate_inj base (suc i) zero h =
    absurd (ground (arith, ap length h, length-append base (b'-' ∷ itoa (suc i))))
candidate_inj base (suc i) (suc j) h =
    itoa_inj (suc i) (suc j) (cc (append_inj base (b'-' ∷ itoa (suc i)) (b'-' ∷ itoa (suc j)) h))

-- The workspaces with another slug.
abbrev without : Text → List Workspace → List Workspace
without slug ws = keep (λ w. not (eq_text w.slug slug)) ws

is_taken-without :
    (slug other : Text) (ws : List Workspace)
    → slug ≢ other
    → is_taken slug (without other ws) ≡ is_taken slug ws
is_taken-without slug other [] n = refl
is_taken-without slug other (w ∷ ws) n =
    ground
      (arith, eq_text_iff w.slug slug, eq_text_iff w.slug other, is_taken-without slug other ws n)

length-without-le : (slug : Text) (ws : List Workspace) → length (without slug ws) ≤ length ws
length-without-le slug [] = omega arith
length-without-le slug (w ∷ ws) = ground (arith, length-without-le slug ws)

length-without-lt :
    (slug : Text) (ws : List Workspace)
    → is_taken slug ws ≡ true
    → length (without slug ws) < length ws
length-without-lt slug [] h = absurd (cc h)
length-without-lt slug (w ∷ ws) h =
    ground (arith, length-without-le slug ws, length-without-lt slug ws)

-- Later rounds do not look at the slug of an earlier one.
search_slug-without :
    (fails : Faults) (base : Text) (ws : List Workspace) (k rounds i : ℕ)
    → k < i
    → search_slug fails base (without (candidate base k) ws) rounds i
      ≡ search_slug fails base ws rounds i
unfolding search_slug
search_slug-without fails base ws k zero i h = refl
search_slug-without fails base ws k (suc rounds) i h = ground (
  arith,
  is_taken-without (candidate base i) (candidate base k) ws other,
  search_slug-without fails base ws k rounds (i + 1),
)
  where
    other : candidate base i ≢ candidate base k
    other e = absurd (ground (arith, candidate_inj base i k e))

search_slug-is_some :
    (fails : Faults) (base : Text) (ws : List Workspace) (rounds i : ℕ)
    → length ws < rounds
    → is_some (search_slug fails base ws rounds i) ≡ true
unfolding search_slug
search_slug-is_some fails base ws zero i h = absurd (omega arith)
search_slug-is_some fails base ws (suc rounds) i h =
    elim (Bool-cases (is_taken (candidate base i) ws)) [
      | inl e ↦ ground (
        arith,
        search_slug-without fails base ws i rounds (i + 1),
        search_slug-is_some fails base (without (candidate base i) ws) rounds (i + 1),
        length-without-lt (candidate base i) ws e,
      )
      | inr e ↦ ground (arith, e)
    ]

-- The slug that is found is that of a round, and its query failed or found no workspace.
search_slug-some :
    (fails : Faults) (base : Text) (ws : List Workspace) (rounds i : ℕ) (slug : Text)
    → search_slug fails base ws rounds i ≡ some slug
    → (j : ℕ) × (slug ≡ candidate base j)
      × (j < i + rounds)
      × ((fails j || not (is_taken (candidate base j) ws)) ≡ true)
unfolding search_slug
search_slug-some fails base ws zero i slug h = absurd (cc h)
search_slug-some fails base ws (suc rounds) i slug h =
    elim (Bool-cases (fails i || not (is_taken (candidate base i) ws))) [
      | inl e ↦ (i, ground arith, ground arith, e)
      | inr e ↦
          let (j, s, less, free) =
            search_slug-some fails base ws rounds (i + 1) slug (ground arith) in
          (j, s, ground (arith, less), free)
    ]

-- Signup's loop ends, whichever queries fail: it finds a candidate in at most one round more than there are
-- workspaces, and the query for that candidate failed or counted no workspace.
pub unique_slug_ends :
    (fails : Faults) (base : Text) (ws : List Workspace)
    → (i : ℕ) × (unique_slug fails base ws ≡ some (candidate base i))
      × (i ≤ length ws)
      × ((fails i || not (is_taken (candidate base i) ws)) ≡ true)
unfolding unique_slug
unique_slug_ends fails base ws =
    let (slug, found) =
      found_slug (search_slug fails base ws (suc (length ws)) 0)
        (search_slug-is_some fails base ws (suc (length ws)) 0 (omega arith)) in
    let (i, s, less, free) = search_slug-some fails base ws (suc (length ws)) 0 slug found in
    (i, found ∙ ap some s, ground (arith, less), free)
  where
    found_slug : (o : Option Text) → is_some o ≡ true → (slug : Text) × (o ≡ some slug)
    found_slug none h = absurd (cc h)
    found_slug (some slug) h = (slug, refl)
