-- ===== src/Store/Tables.antt =====
-- internal/store/store.go, models and schema: the rows, the queries and the results. A statement of the
-- database can fail: `Faults` says of each statement of an operation, counted from 0, whether it does.
-- The clock gives nanoseconds; a stored time has whole seconds (RFC 3339).
use matrix_runtime.Common.{ℕ, ◌*◌, ◌/◌, Bool, List, Option, none, some, find?, ltb, Text}
use matrix_runtime.Common.Strings.{eq_text, trim_space}

pub record UserRow : Type 0 where
  pub id : Text
  pub workspace_id : Text
  pub name : Text
  pub email : Text
  pub password_hash : Text
  pub role : Text
  pub created_at : ℕ

pub record Workspace : Type 0 where
  pub id : Text
  pub name : Text
  pub slug : Text
  pub created_at : ℕ

pub record SessionRow : Type 0 where
  pub token : Text
  pub user_id : Text
  pub created_at : ℕ
  pub expires_at : ℕ

-- A row of password_resets or of email_verifications; no time of use is the empty text.
pub record LinkRow : Type 0 where
  pub id : Text
  pub user_id : Text
  pub token_hash : Text
  pub expires_at : ℕ
  pub used_at : Option ℕ
  pub created_at : ℕ

pub record Tables : Type 0 where
  pub users : List UserRow
  pub workspaces : List Workspace
  pub sessions : List SessionRow
  pub resets : List LinkRow
  pub verifications : List LinkRow

pub data StoreError : Type 0 where
  database no_random constraint not_found invalid_login : StoreError
  email_taken workspace_required short_password unknown_link used_link expired_link : StoreError

pub data Result {ℓ} (A : Type ℓ) : Type ℓ where
  ok : A → Result A
  err : StoreError → Result A

abbrev pub Faults : Type 0
Faults = ℕ → Bool

-- A row of the users table joined with its workspace.
pub record User : Type 0 where
  pub id : Text
  pub workspace_id : Text
  pub workspace_name : Text
  pub workspace_slug : Text
  pub name : Text
  pub email : Text
  pub role : Text
  pub created_at : ℕ

abbrev pub view : UserRow → Workspace → User
view u w = record {
  id = u.id;
  workspace_id = u.workspace_id;
  workspace_name = w.name;
  workspace_slug = w.slug;
  name = u.name;
  email = u.email;
  role = u.role;
  created_at = u.created_at;
}

abbrev pub with_workspace : Tables → UserRow → Option Workspace → Option (UserRow × User)
with_workspace t u none = none
with_workspace t u (some w) = some (u, view u w)

abbrev pub join : Tables → Option UserRow → Option (UserRow × User)
join t none = none
join t (some u) = with_workspace t u (find? (λ w. eq_text w.id u.workspace_id) t.workspaces)

unfoldable pub user_with_email : Text → Tables → Option (UserRow × User)
user_with_email email t = join t (find? (λ u. eq_text u.email email) t.users)

unfoldable pub user_with_id : Text → Tables → Option (UserRow × User)
user_with_id id t = join t (find? (λ u. eq_text u.id id) t.users)

-- strings.ToLower is a parameter: it reads Go's tables of letters.
abbrev pub normal_email : (Text → Text) → Text → Text
normal_email lower email = lower (trim_space email)

abbrev pub seconds : ℕ → ℕ
seconds ns = ns / 1000000000

-- `time.Now().After(t)` for a stored time t.
abbrev pub is_after : ℕ → ℕ → Bool
is_after now stored = ltb (stored * 1000000000) now
