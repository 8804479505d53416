-- ===== src/Store/Signup.antt =====
-- internal/store/store.go: Signup, with the loop that looks for a slug that is not taken.
pub mod Slug
pub mod Laws
use matrix_runtime.Common.{
  ℕ, zero, suc, ◌+◌, ◌-◌, Bool, true, false, not, ◌||◌, List, [], ◌∷◌, ◌++◌, Option, none, some,
  any, length, ◌==◌, if◌then◌else◌, Text, codes,
}
use matrix_runtime.Common.Int.{itoa}
use matrix_runtime.Common.Strings.{eq_text, is_empty, trim_space}
use matrix_runtime.Auth.Hex.{Bytes}
use matrix_runtime.Auth.Password.{hash_password}
use matrix_runtime.Store.Tables.{
  Tables, UserRow, Workspace, User, StoreError, Result, ok, err, database, no_random, constraint,
  email_taken, Faults, view, normal_email, seconds,
}
use matrix_runtime.Store.Slugs.{slugify, default_workspace_name}

-- The slug of a round of the loop.
abbrev pub candidate : Text → ℕ → Text
candidate base zero = base
candidate base (suc i) = base ++ b'-' ∷ itoa (suc i)

abbrev pub is_taken : Text → List Workspace → Bool
is_taken slug ws = any (λ w. eq_text w.slug slug) ws

-- The rounds from i on. A query that fails counts no rows.
unfoldable pub search_slug : Faults → Text → List Workspace → ℕ → ℕ → Option Text
search_slug fails base ws zero i = none
search_slug fails base ws (suc rounds) i =
    let rest = search_slug fails base ws rounds (i + 1) in
    if fails i || not (is_taken (candidate base i) ws) then some (candidate base i) else rest

-- One round more than there are workspaces.
unfoldable pub unique_slug : Faults → Text → List Workspace → Option Text
unfolding search_slug
unique_slug fails base ws = search_slug fails base ws (suc (length ws)) 0

-- The columns id and slug are keys.
unfoldable pub insert_workspace : Workspace → Tables → Option Tables
insert_workspace w t =
    if any (λ o. eq_text o.id w.id) t.workspaces || is_taken w.slug t.workspaces
    then none
    else some (record t { workspaces = w ∷ t.workspaces })

-- The columns id and email are keys, and workspace_id is that of a workspace.
unfoldable pub insert_user : UserRow → Tables → Option Tables
insert_user u t =
    if any (λ o. eq_text o.id u.id || eq_text o.email u.email) t.users
      || not (any (λ w. eq_text w.id u.workspace_id) t.workspaces)
    then none
    else some (record t { users = u ∷ t.users })

abbrev pub then_user : UserRow → Option Tables → Option Tables
then_user u none = none
then_user u (some t) = insert_user u t

-- The end of the transaction; without a commit every table is as it was.
abbrev pub commit : Bool → User → Tables → Option Tables → Result User × Tables
commit fails u t none = (err constraint, t)
commit fails u t (some t') = if fails then (err database, t) else (ok u, t')

-- Begin, two insertions and a commit are the statements 1 to 4.
abbrev pub transact : Faults → Workspace → UserRow → Tables → Result User × Tables
transact fails w u t =
    if fails 1 || fails 2 || fails 3
    then (err database, t)
    else commit (fails 4) (view u w) t (then_user u (insert_workspace w t))

-- A loop that never ended would give none; Slug shows that it does not happen.
abbrev pub or_base : Text → Option Text → Text
or_base base none = base
or_base base (some slug) = slug

abbrev pub workspace_name : Text → Text → Text → Text
workspace_name given name email =
    if is_empty (trim_space given) then default_workspace_name name email else given

abbrev pub new_workspace : (Text → Text) → Faults → Text → Text → ℕ → Tables → Workspace
new_workspace lower slug_fails id name now t =
    let base = slugify lower name in
    record {
      id = id;
      name = name;
      slug = or_base base (unique_slug slug_fails base t.workspaces);
      created_at = seconds now;
    }

abbrev pub new_user : Text → Text → Text → Text → Text → ℕ → UserRow
new_user id workspace_id name email hash now = record {
  id = id;
  workspace_id = workspace_id;
  name = trim_space name;
  email = email;
  password_hash = hash;
  role = codes "Owner";
  created_at = seconds now;
}

-- A request to sign up, with what the random source and the clock give it.
pub record Signup : Type 0 where
  pub name : Text
  pub email : Text
  pub password : Text
  pub workspace : Text
  pub salt : Option Bytes
  pub workspace_id : Text
  pub user_id : Text
  pub now : ℕ

module _ (hmac : Bytes → Bytes → Bytes) (lower : Text → Text) (fails slug_fails : Faults) where
  abbrev pub salted_signup : Signup → Tables → Option Bytes → Result User × Tables
  salted_signup r t none = (err no_random, t)
  salted_signup r t (some salt) =
      let email = normal_email lower r.email in
      let w =
        new_workspace lower slug_fails r.workspace_id (workspace_name r.workspace r.name email)
          r.now t in
      transact fails w
        (new_user r.user_id r.workspace_id r.name email (hash_password hmac salt r.password) r.now)
        t

  unfoldable pub signup : Signup → Tables → Result User × Tables
  unfolding unique_slug insert_workspace insert_user hash_password slugify
  signup r t =
      if fails 0
      then (err database, t)
      else if any (λ u. eq_text u.email (normal_email lower r.email)) t.users
      then (err email_taken, t)
      else salted_signup r t r.salt
