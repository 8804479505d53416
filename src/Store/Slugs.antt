-- ===== src/Store/Slugs.antt =====
-- internal/store/store.go: the name and the slug of a new workspace. `len(b) > 0` and `prevDash` of the loop
-- are arguments.
use matrix_runtime.Common.{
  ◌≡◌, refl, sym, subst, ℕ, Bool, true, false, not, ◌&&◌, ◌||◌, [], ◌∷◌, ◌++◌, ◌==◌, leb,
  if◌then◌else◌, arith, Text, codes,
}
use matrix_runtime.Common.Strings.{is_empty, trim_space}

unfoldable pub is_alnum : ℕ → Bool
is_alnum r = (leb b'a' r && leb r b'z') || (leb b'0' r && leb r b'9')

-- What the loop writes for the rest of the name.
unfoldable pub slug_chars : Bool → Bool → Text → Text
unfolding is_alnum
slug_chars started prev_dash [] = []
slug_chars started prev_dash (r ∷ s) =
    let word = slug_chars true false s in
    let gap = slug_chars true true s in
    let same = slug_chars started prev_dash s in
    if is_alnum r then r ∷ word else if not prev_dash && started then b'-' ∷ gap else same

unfoldable pub trim_dashes_left : Text → Text
trim_dashes_left [] = []
trim_dashes_left (c ∷ s) = let rest = trim_dashes_left s in if c == b'-' then rest else c ∷ s

unfoldable pub trim_dashes_right : Text → Text
trim_dashes_right [] = []
trim_dashes_right (c ∷ s) =
    let rest = trim_dashes_right s in if is_empty rest && c == b'-' then [] else c ∷ rest

abbrev or_workspace : Text → Text
or_workspace out = if is_empty out then codes "workspace" else out

unfoldable pub slugify : (Text → Text) → Text → Text
unfolding slug_chars trim_dashes_left trim_dashes_right
slugify lower s =
    or_workspace
      (trim_dashes_right (trim_dashes_left (slug_chars false false (lower (trim_space s)))))

-- What stands before the first `@`, if there is one.
unfoldable pub local_part : Text → Text
local_part [] = []
local_part (c ∷ s) = let rest = local_part s in if c == b'@' then [] else c ∷ rest

unfoldable pub has_at : Text → Bool
has_at [] = false
has_at (c ∷ s) = c == b'@' || has_at s

unfoldable pub default_workspace_name : Text → Text → Text
unfolding local_part has_at
default_workspace_name name email =
    if not (is_empty (trim_space name))
    then trim_space name ++ codes "'s workspace"
    else if has_at email && not (is_empty (local_part email))
    then local_part email ++ codes "'s workspace"
    else codes "Workspace"

-- Words of letters and digits with one dash between two of them; `true` at the start and after a dash.
unfoldable pub is_slug : Bool → Text → Bool
is_slug after_dash [] = not after_dash
is_slug after_dash (c ∷ t) =
    if c == b'-' then not after_dash && is_slug true t else is_alnum c && is_slug false t

-- The same, but a dash may come last.
unfoldable is_open_slug : Bool → Text → Bool
is_open_slug after_dash [] = true
is_open_slug after_dash (c ∷ t) =
    if c == b'-' then not after_dash && is_open_slug true t else is_alnum c && is_open_slug false t

slug_chars-is_open_slug :
    (started prev_dash : Bool) (s : Text)
    → is_open_slug (prev_dash || not started) (slug_chars started prev_dash s) ≡ true
unfolding slug_chars is_open_slug is_alnum
slug_chars-is_open_slug started prev_dash [] = refl
slug_chars-is_open_slug started prev_dash (r ∷ s) = ground (
  arith,
  slug_chars-is_open_slug true false s,
  slug_chars-is_open_slug true true s,
  slug_chars-is_open_slug started prev_dash s,
)

trim_dashes_right-is_slug :
    (after_dash : Bool) (t : Text)
    → is_open_slug after_dash t ≡ true
    → (is_empty (trim_dashes_right t) || is_slug after_dash (trim_dashes_right t)) ≡ true
unfolding trim_dashes_right is_slug is_open_slug
trim_dashes_right-is_slug after_dash [] h = refl
trim_dashes_right-is_slug after_dash (c ∷ t) h =
    ground (arith, trim_dashes_right-is_slug true t, trim_dashes_right-is_slug false t)

trim_dashes_left-open : (t : Text) → is_open_slug true t ≡ true → trim_dashes_left t ≡ t
unfolding trim_dashes_left is_open_slug
trim_dashes_left-open [] h = refl
trim_dashes_left-open (c ∷ t) h = ground arith

or_workspace-is_slug :
    (t : Text) → (is_empty t || is_slug true t) ≡ true → is_slug true (or_workspace t) ≡ true
unfolding is_slug is_alnum
or_workspace-is_slug [] h = refl
or_workspace-is_slug (c ∷ t) h = h

-- A slug has words of lower-case letters and digits with one dash between two of them, whatever the name.
pub slugify-is_slug : (lower : Text → Text) (s : Text) → is_slug true (slugify lower s) ≡ true
unfolding slugify
slugify-is_slug lower s =
    subst (λ t. is_slug true (or_workspace (trim_dashes_right t)) ≡ true)
      (sym (trim_dashes_left-open written tidy))
      (or_workspace-is_slug (trim_dashes_right written)
        (trim_dashes_right-is_slug true written tidy))
  where
    written : Text
    written = slug_chars false false (lower (trim_space s))

    tidy : is_open_slug true written ≡ true
    tidy = slug_chars-is_open_slug false false (lower (trim_space s))
