-- ===== src/Tests/Accounts.antt =====
-- Accounts of internal/store and hashes of internal/auth. The digest is the identity, and the code of a
-- message repeats one byte of it.
use matrix_runtime.Common.{
  ◌≤◌, ◌-◌, ℕ, zero, suc, ◌+◌, ◌%◌, ◌<◌, ◌≡◌, ◌≢◌, ◌↔◌, refl, arith, true, false, [], ◌∷◌, none,
  some, if◌then◌else◌, Text, codes, length,
}
use matrix_runtime.Common.Strings.{eq_text, byte_len, trim_space}
use matrix_runtime.Common.Int.{pos}
use matrix_runtime.Auth.Hex.{Bytes, IsBytes, utf8}
use matrix_runtime.Auth.Password.{
  iterations, key_len, pbkdf2, hash_password, verify_password, fast_hash,
}
use matrix_runtime.Auth.Password.RoundTrip.{IsKey, verify-hash_iff}
use matrix_runtime.Store.Tables.{
  Tables, UserRow, Workspace, LinkRow, ok, err, not_found, Faults, seconds, is_after, view,
  user_with_id, user_with_email,
}
use matrix_runtime.Store.Sessions.{
  create_session, user_by_session, delete_user_sessions, login, session_ttl, insert_session,
}
use matrix_runtime.Store.Sessions.Laws.{session_lifetime, revoked_sessions_resolve_to_others}
use matrix_runtime.Store.Cloud.{TokenRow}
use matrix_runtime.Store.Cloud.Uses.{Attempt, redeemed, join_token_uses}
use matrix_runtime.Store.Resets.{reset_password, read_reset, finish_reset}
use matrix_runtime.Store.Slugs.{is_slug, slugify, slugify-is_slug}
use matrix_runtime.Store.Resets.Laws.{IsReset, after_reset, reset_password_lem}
use matrix_runtime.Store.Resets.Login.{login_after_reset}

-- A message code of 32 bytes.
abbrev pub repeated : ℕ → ℕ → Bytes
repeated zero b = []
repeated (suc n) b = b ∷ repeated n b

pub hmac : Bytes → Bytes → Bytes
hmac k m = repeated 32 (length m % 256)

pub repeated-IsBytes : (n b : ℕ) → b < 256 → IsBytes (repeated n b)
repeated-IsBytes zero b h = tt
repeated-IsBytes (suc n) b h = (h, repeated-IsBytes n b h)

pub hmac-IsKey : (k m : Bytes) → IsKey (hmac k m)
unfolding hmac
hmac-IsKey k m = (refl, repeated-IsBytes 32 (length m % 256) (ground arith))

abbrev digest : Bytes → Bytes
digest m = m

abbrev pub up : Faults
up n = false

verify-hash_iff_example :
    (verify_password hmac (codes "other") (hash_password hmac (7 ∷ []) (codes "secret")) ≡ true) ↔ (
      pbkdf2 hmac (utf8 (codes "other")) (7 ∷ []) iterations key_len
      ≡ pbkdf2 hmac (utf8 (codes "secret")) (7 ∷ []) iterations key_len)
verify-hash_iff_example =
    verify-hash_iff hmac hmac-IsKey (7 ∷ []) (codes "secret") (codes "other") (ground arith)

abbrev ada : UserRow
ada = record {
  id = codes "usr_1";
  workspace_id = codes "ws_1";
  name = codes "Ada";
  email = codes "ada@x.org";
  password_hash = codes "old";
  role = codes "Owner";
  created_at = 0;
}

abbrev workspace : Workspace
workspace = record { id = codes "ws_1"; name = codes "Lab"; slug = codes "lab"; created_at = 0 }

abbrev link : LinkRow
unfolding fast_hash
link = record {
  id = codes "pr_1";
  user_id = codes "usr_1";
  token_hash = fast_hash digest (codes "mxpr_1");
  expires_at = 3600;
  used_at = none;
  created_at = 0;
}

abbrev tables : Tables
tables = record {
  users = ada ∷ [];
  workspaces = workspace ∷ [];
  sessions = [];
  resets = link ∷ [];
  verifications = [];
}

abbrev logged_in : Tables
logged_in = (create_session up (some (codes "token")) (codes "usr_1") 0 tables).1

session_lifetime_example :
    (user_by_session up (codes "token") 5 logged_in).0
    ≡ (if is_after 5 (seconds (0 + session_ttl)) then err not_found else ok (view ada workspace))
unfolding user_with_id create_session insert_session eq_text
session_lifetime_example =
    session_lifetime up up (codes "token") (codes "usr_1") 0 5 tables logged_in ada
      (view ada workspace) refl refl refl refl

revoked_sessions_resolve_to_others_example : ada.id ≢ codes "usr_2"
unfolding delete_user_sessions create_session insert_session user_by_session user_with_id eq_text
revoked_sessions_resolve_to_others_example =
    revoked_sessions_resolve_to_others up up (codes "usr_2") (codes "token") 5 logged_in logged_in
      (view ada workspace) refl refl

abbrev new_password : Text
new_password = codes "new secret"

abbrev reset_tables : Tables
reset_tables = after_reset (hash_password hmac (7 ∷ []) new_password) link 5 logged_in

is_reset :
    reset_password digest hmac up (some (7 ∷ [])) (codes "mxpr_1") new_password 5 logged_in
    ≡ (none, reset_tables)
unfolding reset_password read_reset delete_user_sessions byte_len eq_text create_session
    insert_session fast_hash
is_reset = refl

reset_password_lem_example :
    IsReset digest hmac (some (7 ∷ [])) (codes "mxpr_1") new_password 5 logged_in reset_tables
reset_password_lem_example =
    reset_password_lem digest hmac up (some (7 ∷ [])) (codes "mxpr_1") new_password 5 logged_in
      reset_tables is_reset

-- A reset that read the link before another one succeeded succeeds too.
overlapping_resets :
    (finish_reset hmac up
      (some (8 ∷ []))
      (codes "third secret")
      5
      reset_tables
      (read_reset digest up (codes "mxpr_1") (codes "third secret") 5 logged_in)).0
    ≡ none
unfolding read_reset delete_user_sessions byte_len eq_text create_session insert_session fast_hash
    hash_password
overlapping_resets = refl

abbrev applied_reset :
    IsReset digest hmac (some (7 ∷ [])) (codes "mxpr_1") new_password 5 logged_in reset_tables
unfolding create_session insert_session eq_text fast_hash
applied_reset = record {
  link = link;
  bytes = 7 ∷ [];
  stored = refl;
  unused = refl;
  live = refl;
  salted = refl;
  applied = refl;
}

login_after_reset_example :
    login hmac (λ s. s) up (codes "ada@x.org") new_password reset_tables ≡ ok (view ada workspace)
unfolding user_with_email create_session insert_session eq_text trim_space applied_reset
login_after_reset_example =
    login_after_reset digest hmac (λ s. s) up (some (7 ∷ [])) (codes "mxpr_1") new_password
      (codes "ada@x.org") 5 logged_in reset_tables ada (view ada workspace) hmac-IsKey applied_reset
      (ground arith) refl refl refl

slugify-is_slug_example : is_slug true (slugify (λ s. s) (codes "-my  lab-")) ≡ true
slugify-is_slug_example = slugify-is_slug (λ s. s) (codes "-my  lab-")

abbrev token_row : TokenRow
unfolding fast_hash
token_row = record {
  id = codes "jt_1";
  workspace_id = codes "ws_1";
  token_hash = fast_hash digest (codes "mxrt_1");
  label = [];
  created_by = codes "usr_1";
  max_uses = pos 2;
  uses = 1;
  revoked = false;
  expires_at = none;
  created_at = 0;
}

abbrev attempt : Attempt
attempt = record { secret = codes "mxrt_1"; now = 0; fails = up }

join_token_uses_example :
    redeemed digest
      (fast_hash digest (codes "mxrt_1"))
      (attempt ∷ attempt ∷ attempt ∷ [])
      (token_row ∷ [])
    ≤ 2 - 1
unfolding eq_text fast_hash
join_token_uses_example =
    join_token_uses digest (fast_hash digest (codes "mxrt_1")) (attempt ∷ attempt ∷ attempt ∷ [])
      (token_row ∷ []) token_row refl
