-- ===== src/Tests/Signups.antt =====
-- A first signup, and a provider's secret under a key that was just made.
use matrix_runtime.Common.{
  ℕ, ◌≡◌, ◌≤◌, ◌⊎◌, refl, arith, true, false, not, ◌||◌, List, [], ◌∷◌, Option, none, some,
  if◌then◌else◌, ◌==◌, Text, codes, length,
}
use matrix_runtime.Common.Strings.{eq_text, trim_space}
use matrix_runtime.Common.Int.{itoa, write_digits}
use matrix_runtime.Auth.Hex.{Bytes, encode}
use matrix_runtime.Auth.SecretBox.{Aead, load_or_create_key}
use matrix_runtime.Auth.SecretBox.Laws.{load_or_create_key_stable}
use matrix_runtime.Store.Tables.{Tables, User, StoreError, ok, err}
use matrix_runtime.Store.Sessions.{login}
use matrix_runtime.Store.Slugs.{slugify, slug_chars, trim_dashes_left, trim_dashes_right}
use matrix_runtime.Store.Signup.{
  Signup, signup, unique_slug, search_slug, candidate, is_taken, insert_workspace, insert_user,
}
use matrix_runtime.Store.Signup.Slug.{unique_slug_ends}
use matrix_runtime.Store.Signup.Laws.{Adds, signup_lem, login_after_signup}
use matrix_runtime.Store.Credentials.{CredentialRow, Key, Setting, provider_secret}
use matrix_runtime.Store.Credentials.Refines.{shown, run_settings, replay, provider_secret_refines}
use matrix_runtime.Store.Credentials
use matrix_runtime.Tests.Accounts.{repeated, repeated-IsBytes, hmac, hmac-IsKey, up}

-- A workspace has the slug that the new one asks for.
abbrev tables : Tables
tables = record {
  users = [];
  sessions = [];
  resets = [];
  verifications = [];
  workspaces =
      (record { id = codes "ws_1"; name = codes "Lab"; slug = codes "lab"; created_at = 0 }) ∷ [];
}

abbrev same : Text → Text
same t = t

unique_slug_ends_example :
    (i : ℕ) × (unique_slug up (codes "lab") tables.workspaces ≡ some (candidate (codes "lab") i))
    × (i ≤ length tables.workspaces)
    × ((up i || not (is_taken (candidate (codes "lab") i) tables.workspaces)) ≡ true)
unique_slug_ends_example = unique_slug_ends up (codes "lab") tables.workspaces

abbrev request : Signup
request = record {
  name = codes "Bob";
  email = codes "bob@x.org";
  password = codes "correct horse";
  workspace = codes "lab";
  salt = some (7 ∷ []);
  workspace_id = codes "ws_2";
  user_id = codes "usr_2";
  now = 5000000000;
}

signup_lem_example :
    ((e : StoreError) × (signup hmac same up up request tables ≡ (err e, tables)))
    ⊎ ((salt : Bytes) × Adds hmac same up up request tables salt
          (signup hmac same up up request tables))
signup_lem_example = signup_lem hmac same up up request tables

abbrev bob : User
bob = record {
  id = codes "usr_2";
  workspace_id = codes "ws_2";
  workspace_name = codes "lab";
  workspace_slug = codes "lab-1";
  name = codes "Bob";
  email = codes "bob@x.org";
  role = codes "Owner";
  created_at = 5;
}

login_after_signup_example :
    login hmac same up request.email request.password (signup hmac same up up request tables).1
    ≡ ok bob
unfolding signup unique_slug search_slug insert_workspace insert_user slugify slug_chars
    trim_dashes_left trim_dashes_right itoa write_digits eq_text trim_space
login_after_signup_example =
    login_after_signup hmac same up up up request tables (signup hmac same up up request tables).1
      bob (7 ∷ []) hmac-IsKey refl (ground arith) refl refl

-- A key that is made when there is none, and is read from its file from then on.
abbrev random_key : Bytes
random_key = repeated 32 9

load_or_create_key_stable_example :
    load_or_create_key (λ b. b) [] none false (some (encode random_key))
    ≡ (some random_key, some (encode random_key))
unfolding load_or_create_key encode trim_space
load_or_create_key_stable_example =
    load_or_create_key_stable (λ b. b) [] random_key random_key none false none
      (some (encode random_key)) refl (repeated-IsBytes 32 9 (ground arith)) refl

-- A mark in front of the bytes stands for a cipher.
abbrev unmarked : Bytes → Option Bytes
unmarked [] = none
unmarked (c ∷ b) = if c == 77 then some b else none

abbrev marking : Aead
marking = record { seal = λ k nonce b. 77 ∷ b; unseal = λ k nonce b. unmarked b }

abbrev hf_key : Key
hf_key = record { workspace_id = codes "ws_1"; provider = codes "huggingface"; label = [] }

abbrev settings : List Setting
settings =
    (record {
      key = hf_key;
      created_by = codes "usr_1";
      secret = 1 ∷ 2 ∷ [];
      meta_json = codes "{}";
      nonce = some (repeated 12 5);
      id = codes "pc_1";
      now = 0;
      fails = up;
    })
    ∷ []

provider_secret_refines_example :
    provider_secret marking [] up hf_key (run_settings marking [] settings [])
    ≡ shown marking [] (replay marking [] settings [] (λ _. none) (Credentials.normal_key hf_key))
provider_secret_refines_example =
    provider_secret_refines marking [] settings up hf_key (λ nonce b. refl)
      ((refl, ground arith), tt) refl
