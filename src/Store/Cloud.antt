-- ===== src/Store/Cloud.antt =====
-- internal/store/cloud.go: the tokens with which a runtime joins a workspace. No expiry is the empty text.
pub mod Uses
use matrix_runtime.Common.{
  ℕ, ◌+◌, ◌/◌, Bool, true, false, not, ◌&&◌, ◌||◌, List, [], ◌∷◌, ◌++◌, map, keep, Option, none,
  some, find?, any, ltb, leb, if◌then◌else◌, Text, codes,
}
use matrix_runtime.Common.Newest.{newest_first}
use matrix_runtime.Common.Int.{ℤ, pos, is_positive, pos_part}
use matrix_runtime.Common.Strings.{eq_text}
use matrix_runtime.Auth.Hex.{Bytes}
use matrix_runtime.Auth.Password.{fast_hash}
use matrix_runtime.Store.Tables.{Faults, seconds, is_after}

pub record TokenRow : Type 0 where
  pub id : Text
  pub workspace_id : Text
  pub token_hash : Text
  pub label : Text
  pub created_by : Text
  pub max_uses : ℤ
  pub uses : ℕ
  pub revoked : Bool
  pub expires_at : Option ℕ
  pub created_at : ℕ

pub data TokenError : Type 0 where
  database no_random constraint invalid revoked expired already_used : TokenError

-- What an operation answers.
pub data Answer : Type 0 where
  granted : Text → Answer
  denied : TokenError → Answer

abbrev expiry : ℤ → ℕ → Option ℕ
expiry ttl now = if is_positive ttl then some (seconds (now + pos_part ttl)) else none

unfoldable pub insert_token : TokenRow → List TokenRow → Option (List TokenRow)
insert_token r rows =
    if any (λ o. eq_text o.id r.id || eq_text o.token_hash r.token_hash) rows
    then none
    else some (r ∷ rows)

abbrev minted : Text → List TokenRow → Option (List TokenRow) → Answer × List TokenRow
minted secret rows none = (denied constraint, rows)
minted secret rows (some rows') = (granted secret, rows')

-- The id and the raw token are what the random source gives; the answer is the secret.
unfoldable pub mint_join_token :
    (Bytes → Bytes)
    → Faults
    → Option Text
    → Text
    → Text
    → Text
    → Text
    → ℤ
    → ℤ
    → ℕ
    → List TokenRow
    → Answer × List TokenRow
unfolding fast_hash insert_token
mint_join_token sha256 fails none id workspace_id created_by label max_uses ttl now rows =
    (denied no_random, rows)
mint_join_token sha256 fails (some raw) id workspace_id created_by label max_uses ttl now rows =
    let secret = codes "mxrt_" ++ raw in
    if fails 0
    then (denied database, rows)
    else minted secret rows (
        insert_token
          (record {
            id = id;
            workspace_id = workspace_id;
            token_hash = fast_hash sha256 secret;
            label = label;
            created_by = created_by;
            max_uses = if is_positive max_uses then max_uses else pos 1;
            uses = 0;
            revoked = false;
            expires_at = expiry ttl now;
            created_at = seconds now;
          })
          rows)

abbrev pub has_expired : ℕ → Option ℕ → Bool
has_expired now none = false
has_expired now (some at) = is_after now at

-- `uses >= maxUses`
abbrev pub is_exhausted : TokenRow → Bool
is_exhausted r = leb (pos_part r.max_uses) r.uses

abbrev pub add_use : Text → List TokenRow → List TokenRow
add_use id = map (λ r. if eq_text r.id id then record r { uses = r.uses + 1 } else r)

abbrev pub checked_redeem : Faults → ℕ → List TokenRow → Option TokenRow → Answer × List TokenRow
checked_redeem fails now rows none = (denied invalid, rows)
checked_redeem fails now rows (some r) =
    if r.revoked
    then (denied revoked, rows)
    else if has_expired now r.expires_at
    then (denied expired, rows)
    else if is_exhausted r
    then (denied already_used, rows)
    else if fails 1
    then (denied database, rows)
    else (granted r.workspace_id, add_use r.id rows)

-- One redemption at a time: the reading and the update are two statements of the database.
unfoldable pub redeem_join_token :
    (Bytes → Bytes) → Faults → Text → ℕ → List TokenRow → Answer × List TokenRow
unfolding fast_hash
redeem_join_token sha256 fails secret now rows =
    if fails 0
    then (denied database, rows)
    else checked_redeem fails now rows
        (find? (λ r. eq_text r.token_hash (fast_hash sha256 secret)) rows)

-- The view of a token that is not secret.
pub record JoinToken : Type 0 where
  pub id : Text
  pub label : Text
  pub max_uses : ℤ
  pub uses : ℕ
  pub revoked : Bool
  pub expires_at : Option ℕ
  pub created_at : ℕ

abbrev pub token_view : TokenRow → JoinToken
token_view r = record {
  id = r.id;
  label = r.label;
  max_uses = r.max_uses;
  uses = r.uses;
  revoked = r.revoked;
  expires_at = r.expires_at;
  created_at = r.created_at;
}

-- The views, or none where the database fails.
unfoldable pub list_join_tokens : Faults → Text → List TokenRow → Option (List JoinToken)
unfolding newest_first
list_join_tokens fails workspace_id rows =
    if fails 0
    then none
    else some (
        map token_view (
          newest_first (λ (r : TokenRow). r.created_at)
            (keep (λ (r : TokenRow). eq_text r.workspace_id workspace_id) rows)))
