-- ===== src/Store/Credentials/Refines.antt =====
-- The table of encrypted secrets reads as a function from keys to secrets.
use matrix_runtime.Common.{
  ◌≡◌, refl, sym, ap, ◌∙◌, subst, Bool, true, false, List, [], ◌∷◌, ◌++◌, Option, none, some, find?,
  length, if◌then◌else◌, if-intro, Option-cases, inl, inr, arith, All, Text,
}
use matrix_runtime.Common.Strings.{eq_text_refl}
use matrix_runtime.Auth.Hex.{Bytes, IsBytes}
use matrix_runtime.Auth.SecretBox.{Aead, ok, encrypt, decrypt, nonce_size}
use matrix_runtime.Auth.SecretBox.Laws.{decrypt-encrypt}
use matrix_runtime.Store.Tables.{Faults, Result, not_found}
use matrix_runtime.Store.Credentials.{
  CredentialRow, Key, or_default, has_key, normal_key, upsert, Setting, new_row, upserted,
  ProviderCredential, public_view, store_encrypted, set_provider_credential, Secret, secret, failed,
  secret_of, provider_secret,
}
use matrix_runtime.Store.Credentials.Rows.{enc_of-upsert, enc_of, same_key}

module _ (aead : Aead) (box : Bytes) where
  -- A function from keys to secrets, as the table shows it.
  abbrev pub shown : Option Bytes → Secret
  shown none = failed not_found
  shown (some b) = secret (ok b)

  -- The table with the secrets of a function; a key with no label stands for the default one.
  abbrev pub Represents : (Key → Option Bytes) → List CredentialRow → Type 0
  Represents f rows = (k : Key) → secret_of aead box (find? (has_key k) rows) ≡ shown (f k)

  abbrev pub written : Key → Bytes → (Key → Option Bytes) → Key → Option Bytes
  written k b f j = if same_key k j then some b else f j

  -- The nonce has its size, and what is sealed with it are bytes.
  abbrev pub IsUsable : Bytes → Option Bytes → Type 0
  IsUsable b none = Unit
  IsUsable b (some nonce) = (length nonce ≡ nonce_size) × IsBytes (nonce ++ aead.seal box nonce b)

  abbrev AfterSet :
      Setting
      → (Key → Option Bytes)
      → List CredentialRow
      → Result ProviderCredential × List CredentialRow
      → Type 0
  AfterSet s f rows (Result.ok v, rows') = Represents (written (normal_key s.key) s.secret f) rows'
  AfterSet s f rows (Result.err e, rows') = rows' ≡ rows

  -- What a cipher reads as.
  abbrev read_enc : Option Text → Secret
  read_enc none = failed not_found
  read_enc (some t) = secret (decrypt aead box t)

  secret_of-enc : (o : Option CredentialRow) → secret_of aead box o ≡ read_enc (enc_of o)
  secret_of-enc none = refl
  secret_of-enc (some r) = refl

  new_row-has_key : (s : Setting) (enc : Text) → has_key (normal_key s.key) (new_row s enc) ≡ true
  new_row-has_key s enc = ground (
    arith,
    eq_text_refl s.key.workspace_id,
    eq_text_refl s.key.provider,
    eq_text_refl (or_default s.key.label),
  )

  -- A row with the cipher of a secret, once it is in the table.
  upsert-Represents :
      (s : Setting) (f : Key → Option Bytes) (enc : Text) (rows rows' : List CredentialRow)
      → decrypt aead box enc ≡ ok s.secret
      → Represents f rows
      → upsert (normal_key s.key) (new_row s enc) rows ≡ some rows'
      → Represents (written (normal_key s.key) s.secret f) rows'
  upsert-Represents s f enc rows rows' d h e k =
      secret_of-enc (find? (has_key k) rows')
      ∙ ap read_enc
          (enc_of-upsert (normal_key s.key) k (new_row s enc) rows rows' (new_row-has_key s enc) e)
      ∙ chosen (same_key (normal_key s.key) k)
    where
      chosen :
          (b : Bool)
          → read_enc (if b then some enc else enc_of (find? (has_key k) rows))
            ≡ shown (if b then some s.secret else f k)
      chosen true = ap secret d
      chosen false = sym (secret_of-enc (find? (has_key k) rows)) ∙ h k

  module _
      (authentic : (nonce b : Bytes) → aead.unseal box nonce (aead.seal box nonce b) ≡ some b) where
    -- A call that succeeds writes its secret under its key, and one that fails changes nothing.
    set_refines :
        (s : Setting) (f : Key → Option Bytes) (rows : List CredentialRow)
        → IsUsable s.secret s.nonce
        → Represents f rows
        → AfterSet s f rows (set_provider_credential aead box s rows)
    unfolding set_provider_credential encrypt
    set_refines s f rows u h = with_nonce s.nonce u
      where
        with_enc :
            (enc : Text)
            → decrypt aead box enc ≡ ok s.secret
            → AfterSet s f rows (store_encrypted s rows (some enc))
        with_enc enc d =
            if-intro (AfterSet s f rows) (s.fails 0) (λ e. refl)
              (λ e. elim (Option-cases (upsert (normal_key s.key) (new_row s enc) rows)) [
                | inl n ↦
                    subst (λ o. AfterSet s f rows (upserted (public_view (new_row s enc)) rows o))
                      (sym n) refl
                | inr (rows', g) ↦
                    subst (λ o. AfterSet s f rows (upserted (public_view (new_row s enc)) rows o))
                      (sym g) (upsert-Represents s f enc rows rows' d h g)
              ])

        with_nonce :
            (nonce : Option Bytes)
            → IsUsable s.secret nonce
            → AfterSet s f rows (store_encrypted s rows (encrypt aead box nonce s.secret))
        with_nonce none v = refl
        with_nonce (some nonce) v =
            let (enc, e, d) =
              decrypt-encrypt aead box nonce s.secret (authentic nonce s.secret) v.0 v.1 in
            subst (λ o. AfterSet s f rows (store_encrypted s rows o)) (sym e) (with_enc enc d)

-- The table after some calls, and the function that the calls which succeed write.
unfoldable pub run_settings : Aead → Bytes → List Setting → List CredentialRow → List CredentialRow
run_settings aead box [] rows = rows
run_settings aead box (s ∷ ss) rows =
    run_settings aead box ss (set_provider_credential aead box s rows).1

abbrev pub is_ok : Result ProviderCredential → Bool
is_ok (Result.ok v) = true
is_ok (Result.err e) = false

unfoldable pub replay :
    Aead → Bytes → List Setting → List CredentialRow → (Key → Option Bytes) → Key → Option Bytes
replay aead box [] rows f = f
replay aead box (s ∷ ss) rows f =
    let (e, rows') = set_provider_credential aead box s rows in
    replay aead box ss rows' (if is_ok e then written aead box (normal_key s.key) s.secret f else f)

replay_refines :
    (aead : Aead) (box : Bytes)
    → ((nonce b : Bytes) → aead.unseal box nonce (aead.seal box nonce b) ≡ some b)
    → (ss : List Setting) (f : Key → Option Bytes) (rows : List CredentialRow)
    → All (λ s. IsUsable aead box s.secret s.nonce) ss
    → Represents aead box f rows
    → Represents aead box (replay aead box ss rows f) (run_settings aead box ss rows)
unfolding run_settings replay
replay_refines aead box authentic [] f rows u h = h
replay_refines aead box authentic (s ∷ ss) f rows u h =
    replay_refines aead box authentic ss _ _ u.1 (
      stepped (set_provider_credential aead box s rows)
        (set_refines aead box authentic s f rows u.0 h))
  where
    stepped :
        (x : Result ProviderCredential × List CredentialRow)
        → AfterSet aead box s f rows x
        → Represents aead box
            (if is_ok x.0 then written aead box (normal_key s.key) s.secret f else f)
            x.1
    stepped (Result.ok v, rows') a = a
    stepped (Result.err e, rows') a = subst (Represents aead box f) (sym a) h

-- After any calls on an empty table, with failing statements and random sources among them, a reading that
-- reaches the database shows what the calls that succeeded have last written under the key.
pub provider_secret_refines :
    (aead : Aead) (box : Bytes) (ss : List Setting) (fails : Faults) (k : Key)
    → ((nonce b : Bytes) → aead.unseal box nonce (aead.seal box nonce b) ≡ some b)
    → All (λ s. IsUsable aead box s.secret s.nonce) ss
    → fails 0 ≡ false
    → provider_secret aead box fails k (run_settings aead box ss [])
      ≡ shown aead box (replay aead box ss [] (λ _. none) (normal_key k))
unfolding provider_secret
provider_secret_refines aead box ss fails k authentic u up =
    ground (arith, replay_refines aead box authentic ss (λ _. none) [] u (λ _. refl) (normal_key k))
