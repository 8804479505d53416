-- ===== src/Store/Credentials.antt =====
-- internal/store/cloud.go: the secrets of model providers, encrypted in their rows. Metadata is its JSON text.
pub mod Refines
pub mod Rows
use matrix_runtime.Common.{
  ℕ, Bool, true, false, not, ◌&&◌, ◌||◌, List, [], ◌∷◌, map, keep, Option, none, some, find?, any,
  if◌then◌else◌, Text, codes,
}
use matrix_runtime.Common.Strings.{eq_text, is_empty}
use matrix_runtime.Auth.Hex.{Bytes}
use matrix_runtime.Auth.SecretBox
use matrix_runtime.Auth.SecretBox.{Aead, Opened, encrypt, decrypt, hint}
use matrix_runtime.Store.Tables.{
  Result, Faults, StoreError, database, no_random, constraint, not_found, seconds,
}

pub record CredentialRow : Type 0 where
  pub id : Text
  pub workspace_id : Text
  pub provider : Text
  pub label : Text
  pub secret_enc : Text
  pub hint : Bytes
  pub meta_json : Text
  pub created_by : Text
  pub created_at : ℕ
  pub updated_at : ℕ

-- The columns of the unique constraint.
pub record Key : Type 0 where
  pub workspace_id : Text
  pub provider : Text
  pub label : Text

abbrev pub or_default : Text → Text
or_default label = if is_empty label then codes "default" else label

abbrev pub has_key : Key → CredentialRow → Bool
has_key k r =
    eq_text r.workspace_id k.workspace_id
    && eq_text r.provider k.provider
    && eq_text r.label k.label

abbrev pub normal_key : Key → Key
normal_key k = record k { label = or_default k.label }

abbrev pub updated : Key → CredentialRow → CredentialRow → CredentialRow
updated k r o =
    if has_key k o
    then record o {
      secret_enc = r.secret_enc;
      hint = r.hint;
      meta_json = r.meta_json;
      updated_at = r.updated_at;
    }
    else o

-- A row with the key is updated; a new one must have a new id.
unfoldable pub upsert : Key → CredentialRow → List CredentialRow → Option (List CredentialRow)
upsert k r rows =
    if any (has_key k) rows
    then some (map (updated k r) rows)
    else if any (λ o. eq_text o.id r.id) rows
    then none
    else some (r ∷ rows)

-- A call of SetProviderCredential, with what the random source and the clock give it.
pub record Setting : Type 0 where
  pub key : Key
  pub created_by : Text
  pub secret : Bytes
  pub meta_json : Text
  pub nonce : Option Bytes
  pub id : Text
  pub now : ℕ
  pub fails : Faults

abbrev pub new_row : Setting → Text → CredentialRow
new_row s enc = record {
  id = s.id;
  workspace_id = s.key.workspace_id;
  provider = s.key.provider;
  label = or_default s.key.label;
  secret_enc = enc;
  hint = SecretBox.hint s.secret;
  meta_json = s.meta_json;
  created_by = s.created_by;
  created_at = seconds s.now;
  updated_at = seconds s.now;
}

-- The public view of a row; the secret is not in it.
pub record ProviderCredential : Type 0 where
  pub id : Text
  pub provider : Text
  pub label : Text
  pub hint : Bytes
  pub meta_json : Text
  pub created_at : ℕ

abbrev pub public_view : CredentialRow → ProviderCredential
public_view r = record {
  id = r.id;
  provider = r.provider;
  label = r.label;
  hint = r.hint;
  meta_json = r.meta_json;
  created_at = r.created_at;
}

abbrev pub upserted :
    ProviderCredential
    → List CredentialRow
    → Option (List CredentialRow)
    → Result ProviderCredential × List CredentialRow
upserted view rows none = (Result.err constraint, rows)
upserted view rows (some rows') = (Result.ok view, rows')

-- The view that is returned is that of the new row, also where an old row is updated.
abbrev pub store_encrypted :
    Setting → List CredentialRow → Option Text → Result ProviderCredential × List CredentialRow
store_encrypted s rows none = (Result.err no_random, rows)
store_encrypted s rows (some enc) =
    if s.fails 0
    then (Result.err database, rows)
    else upserted (public_view (new_row s enc)) rows
        (upsert (normal_key s.key) (new_row s enc) rows)

unfoldable pub set_provider_credential :
    Aead → Bytes → Setting → List CredentialRow → Result ProviderCredential × List CredentialRow
unfolding encrypt upsert
set_provider_credential aead box s rows = store_encrypted s rows (encrypt aead box s.nonce s.secret)

-- Go orders the views by provider; the model leaves them in the order of the rows.
unfoldable pub list_provider_credentials : Text → List CredentialRow → List ProviderCredential
list_provider_credentials workspace_id rows =
    map public_view (keep (λ r. eq_text r.workspace_id workspace_id) rows)

pub data Secret : Type 0 where
  secret : Opened → Secret
  failed : StoreError → Secret

abbrev pub secret_of : Aead → Bytes → Option CredentialRow → Secret
secret_of aead box none = failed not_found
secret_of aead box (some r) = secret (decrypt aead box r.secret_enc)

unfoldable pub provider_secret : Aead → Bytes → Faults → Key → List CredentialRow → Secret
unfolding decrypt
provider_secret aead box fails k rows =
    if fails 0 then failed database else secret_of aead box (find? (has_key (normal_key k)) rows)
