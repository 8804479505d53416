-- ===== src/Store/Sessions.antt =====
-- internal/store/store.go: login and the sessions.
pub mod Laws
use matrix_runtime.Common.{
  ℕ, ◌+◌, ◌*◌, ◌/◌, Bool, true, false, not, ◌||◌, List, [], ◌∷◌, Option, none, some, find?, keep,
  any, if◌then◌else◌, Text,
}
use matrix_runtime.Common.Strings.{eq_text, is_empty}
use matrix_runtime.Auth.Hex.{Bytes}
use matrix_runtime.Auth.Password.{verify_password}
use matrix_runtime.Store.Tables.{
  Tables, UserRow, SessionRow, User, Result, ok, err, database, no_random, constraint, not_found,
  invalid_login, StoreError, Faults, user_with_email, user_with_id, normal_email, seconds, is_after,
}

abbrev pub session_ttl : ℕ
session_ttl = 30 * 24 * 3600 * 1000000000

abbrev pub checked_login : (Bytes → Bytes → Bytes) → Text → Option (UserRow × User) → Result User
checked_login hmac password none = err invalid_login
checked_login hmac password (some (row, u)) =
    if verify_password hmac password row.password_hash then ok u else err invalid_login

unfoldable pub login :
    (Bytes → Bytes → Bytes) → (Text → Text) → Faults → Text → Text → Tables → Result User
unfolding user_with_email
login hmac lower fails email password t =
    if fails 0
    then err database
    else checked_login hmac password (user_with_email (normal_email lower email) t)

-- The columns token (a key) and user_id (of a user) are checked by the insertion.
unfoldable pub insert_session : SessionRow → Tables → Option Tables
insert_session s t =
    if any (λ r. eq_text r.token s.token) t.sessions
      || not (any (λ u. eq_text u.id s.user_id) t.users)
    then none
    else some (record t { sessions = s ∷ t.sessions })

abbrev pub inserted : Text → Tables → Option Tables → Result Text × Tables
inserted token t none = (err constraint, t)
inserted token t (some t') = (ok token, t')

-- The token is what the random source gives.
unfoldable pub create_session : Faults → Option Text → Text → ℕ → Tables → Result Text × Tables
unfolding insert_session
create_session fails none user_id now t = (err no_random, t)
create_session fails (some token) user_id now t =
    if fails 0
    then (err database, t)
    else inserted token t (
        insert_session
          (record {
            token = token;
            user_id = user_id;
            created_at = seconds now;
            expires_at = seconds (now + session_ttl);
          })
          t)

unfoldable pub delete_session : Faults → Text → Tables → Option StoreError × Tables
delete_session fails token t =
    if fails 0
    then (some database, t)
    else (none, record t { sessions = keep (λ s. not (eq_text s.token token)) t.sessions })

unfoldable pub delete_user_sessions : Faults → Text → Tables → Option StoreError × Tables
delete_user_sessions fails user_id t =
    if fails 0
    then (some database, t)
    else (none, record t { sessions = keep (λ s. not (eq_text s.user_id user_id)) t.sessions })

abbrev pub of_session :
    Faults → Text → ℕ → Tables → SessionRow → Option (UserRow × User) → Result User × Tables
of_session fails token now t s none = (err not_found, t)
of_session fails token now t s (some (row, u)) =
    if is_after now s.expires_at
    then (err not_found, (delete_session (λ n. fails (1 + n)) token t).1)
    else (ok u, t)

abbrev pub joined_session : Faults → Text → ℕ → Tables → Option SessionRow → Result User × Tables
joined_session fails token now t none = (err not_found, t)
joined_session fails token now t (some s) =
    of_session fails token now t s (user_with_id s.user_id t)

-- An expired session is deleted; a failure of that statement is ignored.
unfoldable pub user_by_session : Faults → Text → ℕ → Tables → Result User × Tables
unfolding delete_session user_with_id
user_by_session fails token now t =
    if is_empty token
    then (err not_found, t)
    else if fails 0
    then (err database, t)
    else joined_session fails token now t (find? (λ s. eq_text s.token token) t.sessions)
