-- ===== src/Cache/Keys.antt =====
-- internal/cache/paths.go: a model's directory.
use matrix_runtime.Common.{
  ℕ, ◌≡◌, refl, Bool, true, false, ◌&&◌, ◌||◌, [], ◌∷◌, ◌++◌, any, ◌==◌, arith, Text, codes,
}
use matrix_runtime.Common.Strings.{eq_text}
use matrix_runtime.Common.Paths.{slash}
use matrix_runtime.Common.Paths.Stacks.{no_slash, is_dotted, is_plain}
use matrix_runtime.Common.Paths.Children.{join_two-child}
use matrix_runtime.Cache.{Layout, models, hugging_face, replace_slashes, safe_model_key, model_dir}

abbrev pub has_code : ℕ → Text → Bool
has_code c = any (λ d. d == c)

pub has_code-append : (c : ℕ) (s t : Text) → has_code c (s ++ t) ≡ (has_code c s || has_code c t)
has_code-append c [] t = refl
has_code-append c (d ∷ s) t = ground (arith, has_code-append c s t)

pub no_slash-append : (s t : Text) → no_slash (s ++ t) ≡ (no_slash s && no_slash t)
no_slash-append [] t = refl
no_slash-append (c ∷ s) t = ground (arith, no_slash-append s t)

-- A text with a code other than the dot is none of the names that cleaning takes away.
pub has_code-is_dotted :
    (c : ℕ) (s : Text) → (c == b'.') ≡ false → has_code c s ≡ true → is_dotted s ≡ false
unfolding eq_text
has_code-is_dotted c [] n h = absurd (ground (arith, h))
has_code-is_dotted c (d ∷ []) n h = ground (arith, n, h)
has_code-is_dotted c (d ∷ e ∷ []) n h = ground (arith, n, h)
has_code-is_dotted c (d ∷ e ∷ f ∷ s) n h = ground (arith, n, h)

replace_slashes-no_slash : (s : Text) → no_slash (replace_slashes s) ≡ true
unfolding replace_slashes
replace_slashes-no_slash [] = refl
replace_slashes-no_slash (c ∷ s) = ground (arith, replace_slashes-no_slash s)

replace_slashes-has_dash :
    (s : Text) → has_code b'-' s ≡ true → has_code b'-' (replace_slashes s) ≡ true
unfolding replace_slashes
replace_slashes-has_dash [] h = h
replace_slashes-has_dash (c ∷ s) h = ground (arith, h, replace_slashes-has_dash s)

safe_model_key-is_plain : (namespace name : Text) → is_plain (safe_model_key namespace name) ≡ true
unfolding safe_model_key
safe_model_key-is_plain namespace name =
    let key = namespace ++ codes "--" ++ name in
    let dash : has_code b'-' (replace_slashes key) ≡ true = replace_slashes-has_dash key (
      ground (
        arith,
        has_code-append b'-' (namespace ++ codes "--") name,
        has_code-append b'-' namespace (codes "--"),
      )) in
    ground
      (arith, replace_slashes-no_slash key, has_code-is_dotted b'-' (replace_slashes key) refl dash)

-- The directory of a model, whatever its namespace and name hold, slashes, dots or nothing, stands right under
-- the directory of the Hugging Face cache, under a key that has no slash.
pub model_dir_lem :
    (l : Layout) (namespace name : Text)
    → (model_dir l namespace name ≡ hugging_face l ++ slash ∷ safe_model_key namespace name)
      × (no_slash (safe_model_key namespace name) ≡ true)
unfolding model_dir hugging_face
model_dir_lem l namespace name = (
  join_two-child (models l) (codes "huggingface") (safe_model_key namespace name)
      (unfold eq_text in refl) (safe_model_key-is_plain namespace name),
  unfold safe_model_key in replace_slashes-no_slash (namespace ++ codes "--" ++ name),
)
