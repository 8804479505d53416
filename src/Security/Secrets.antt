-- ===== src/Security/Secrets.antt =====
-- internal/security/secrets.go: no raw secret in the environment of a job. The two regular expressions of
-- the source are arguments: whether a key looks like that of a secret, and whether a value is a reference.
use matrix_runtime.Common.{
  ◌≡◌, ◌↔◌, refl, Bool, false, not, ◌&&◌, List, [], ◌∷◌, Option, none, some, All, if◌then◌else◌,
  arith, Text,
}
use matrix_runtime.Common.Strings.{is_empty, trim_space}

module _ (like_secret : Text → Bool) (matches_ref : Text → Bool) where
  unfoldable pub is_secret_ref : Text → Bool
  is_secret_ref v = matches_ref (trim_space v)

  abbrev pub is_raw_secret : Text × Text → Bool
  is_raw_secret (k, v) = like_secret k && not (is_empty v) && not (is_secret_ref v)

  -- The key that the error names, with the entries in the order in which the map is walked.
  unfoldable pub check_no_raw_secrets : List (Text × Text) → Option Text
  unfolding is_secret_ref
  check_no_raw_secrets [] = none
  check_no_raw_secrets ((k, v) ∷ env) =
      let rest = check_no_raw_secrets env in
      if not (like_secret k)
      then rest
      else if is_empty v
      then rest
      else if is_secret_ref v
      then rest
      else some k

  -- An environment is accepted exactly when none of its entries is a raw secret, so that the order of the
  -- entries does not matter.
  pub check_no_raw_secrets_lem :
      (env : List (Text × Text))
      → (check_no_raw_secrets env ≡ none) ↔ All (λ e. is_raw_secret e ≡ false) env
  unfolding check_no_raw_secrets
  check_no_raw_secrets_lem [] = (λ h. tt, λ h. refl)
  check_no_raw_secrets_lem ((k, v) ∷ env) = ground (arith, check_no_raw_secrets_lem env)
