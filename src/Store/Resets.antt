-- ===== src/Store/Resets.antt =====
-- internal/store/accounts.go: links to reset a password and to verify an e-mail address. Each statement of
-- the database is a step of its own, and ResetPassword is a reading and three writes: requests may overlap
-- between them.
pub mod Laws
pub mod Login
use matrix_runtime.Common.{
  ℕ, ◌+◌, ◌*◌, ◌/◌, Bool, true, false, not, ◌||◌, List, [], ◌∷◌, ◌++◌, map, Option, none, some,
  find?, any, is_some, ltb, if◌then◌else◌, Text, codes,
}
use matrix_runtime.Common.Int.{ℤ, is_positive, pos_part}
use matrix_runtime.Common.Strings.{eq_text, byte_len}
use matrix_runtime.Auth.Hex.{Bytes}
use matrix_runtime.Auth.Password.{fast_hash, hash_password}
use matrix_runtime.Store.Tables.{
  Tables, UserRow, LinkRow, User, Result, ok, err, StoreError, database, no_random, constraint,
  not_found, short_password, unknown_link, used_link, expired_link, Faults, user_with_email,
  normal_email, seconds, is_after,
}
use matrix_runtime.Store.Sessions.{delete_user_sessions}

abbrev found_user : Option (UserRow × User) → Result User
found_user none = err not_found
found_user (some (row, u)) = ok u

unfoldable pub user_by_email : (Text → Text) → Faults → Text → Tables → Result User
unfolding user_with_email
user_by_email lower fails email t =
    if fails 0 then err database else found_user (user_with_email (normal_email lower email) t)

-- The columns id and token_hash are keys.
unfoldable pub insert_link : LinkRow → List LinkRow → Option (List LinkRow)
insert_link l links =
    if any (λ r. eq_text r.id l.id || eq_text r.token_hash l.token_hash) links
    then none
    else some (l ∷ links)

-- A time to live in nanoseconds, or the default where it is not positive.
abbrev ttl_or : ℕ → ℤ → ℕ
ttl_or default ttl = if is_positive ttl then pos_part ttl else default

abbrev new_link : (Bytes → Bytes) → Text → Text → Text → ℕ → ℕ → LinkRow
new_link sha256 id user_id secret ttl now = record {
  id = id;
  user_id = user_id;
  token_hash = fast_hash sha256 secret;
  expires_at = seconds (now + ttl);
  used_at = none;
  created_at = seconds now;
}

abbrev stored_reset : Text → Tables → Option (List LinkRow) → Result Text × Tables
stored_reset secret t none = (err constraint, t)
stored_reset secret t (some links) = (ok secret, record t { resets = links })

unfoldable pub create_password_reset :
    (Bytes → Bytes) → Faults → Option Text → Text → Text → ℤ → ℕ → Tables → Result Text × Tables
unfolding insert_link fast_hash
create_password_reset sha256 fails none id user_id ttl now t = (err no_random, t)
create_password_reset sha256 fails (some raw) id user_id ttl now t =
    let secret = codes "mxpr_" ++ raw in
    if fails 0
    then (err database, t)
    else stored_reset secret t
        (insert_link (new_link sha256 id user_id secret (ttl_or 3600000000000 ttl) now) t.resets)

abbrev pub set_hash : Text → Text → List UserRow → List UserRow
set_hash user_id hash =
    map (λ u. if eq_text u.id user_id then record u { password_hash = hash } else u)

abbrev pub mark_used : Text → ℕ → List LinkRow → List LinkRow
mark_used id at = map (λ l. if eq_text l.id id then record l { used_at = some at } else l)

-- The statements of ResetPassword that write.
pub data ResetWrite : Type 0 where
  setting_hash : Text → Text → ResetWrite
  marking_used : Text → ℕ → ResetWrite
  revoking : Text → ResetWrite

abbrev pub write_reset : ResetWrite → Tables → Tables
unfolding delete_user_sessions
write_reset (setting_hash user_id hash) t = record t { users = set_hash user_id hash t.users }
write_reset (marking_used id at) t = record t { resets = mark_used id at t.resets }
write_reset (revoking user_id) t = (delete_user_sessions (λ n. false) user_id t).1

-- The three writes, one after the other; they are not one transaction.
abbrev pub apply_reset : Faults → Text → LinkRow → ℕ → Tables → Option StoreError × Tables
unfolding write_reset
apply_reset fails hash l now t =
    let t1 = write_reset (setting_hash l.user_id hash) t in
    let t2 = write_reset (marking_used l.id (seconds now)) t1 in
    if fails 1
    then (some database, t)
    else if fails 2
    then (some database, t1)
    else delete_user_sessions (λ n. fails (3 + n)) l.user_id t2

abbrev pub checked_link : ℕ → Option LinkRow → Result LinkRow
checked_link now none = err unknown_link
checked_link now (some l) =
    if is_some l.used_at
    then err used_link
    else if is_after now l.expires_at
    then err expired_link
    else ok l

-- The first part of ResetPassword: the reading of the link and its checks.
unfoldable pub read_reset : (Bytes → Bytes) → Faults → Text → Text → ℕ → Tables → Result LinkRow
unfolding fast_hash byte_len
read_reset sha256 fails secret password now t =
    if ltb (byte_len password) 8
    then err short_password
    else if fails 0
    then err database
    else checked_link now (find? (λ l. eq_text l.token_hash (fast_hash sha256 secret)) t.resets)

abbrev pub finish_reset :
    (Bytes → Bytes → Bytes)
    → Faults
    → Option Bytes
    → Text
    → ℕ
    → Tables
    → Result LinkRow
    → Option StoreError × Tables
finish_reset hmac fails salt password now t (err e) = (some e, t)
finish_reset hmac fails none password now t (ok l) = (some no_random, t)
finish_reset hmac fails (some bytes) password now t (ok l) =
    apply_reset fails (hash_password hmac bytes password) l now t

-- Both parts, on tables that nothing else changes in between.
unfoldable pub reset_password :
    (Bytes → Bytes)
    → (Bytes → Bytes → Bytes)
    → Faults
    → Option Bytes
    → Text
    → Text
    → ℕ
    → Tables
    → Option StoreError × Tables
unfolding read_reset hash_password delete_user_sessions
reset_password sha256 hmac fails salt secret password now t =
    finish_reset hmac fails salt password now t (read_reset sha256 fails secret password now t)

abbrev stored_verification : Text → Tables → Option (List LinkRow) → Result Text × Tables
stored_verification secret t none = (err constraint, t)
stored_verification secret t (some links) = (ok secret, record t { verifications = links })

unfoldable pub create_email_verification :
    (Bytes → Bytes) → Faults → Option Text → Text → Text → ℤ → ℕ → Tables → Result Text × Tables
unfolding insert_link fast_hash
create_email_verification sha256 fails none id user_id ttl now t = (err no_random, t)
create_email_verification sha256 fails (some raw) id user_id ttl now t =
    let secret = codes "mxev_" ++ raw in
    if fails 0
    then (err database, t)
    else stored_verification secret t (
        insert_link (new_link sha256 id user_id secret (ttl_or 86400000000000 ttl) now)
          t.verifications)

abbrev pub checked_verification : Faults → ℕ → Tables → Option LinkRow → Result Text × Tables
checked_verification fails now t none = (err unknown_link, t)
checked_verification fails now t (some l) =
    if is_some l.used_at
    then (ok l.user_id, t)
    else if is_after now l.expires_at
    then (err expired_link, t)
    else if fails 1
    then (err database, t)
    else (ok l.user_id, record t { verifications = mark_used l.id (seconds now) t.verifications })

unfoldable pub verify_email : (Bytes → Bytes) → Faults → Text → ℕ → Tables → Result Text × Tables
unfolding fast_hash
verify_email sha256 fails secret now t =
    if fails 0
    then (err database, t)
    else checked_verification fails now t
        (find? (λ l. eq_text l.token_hash (fast_hash sha256 secret)) t.verifications)
