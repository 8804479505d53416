-- ===== src/Store/Credentials/Rows.antt =====
-- internal/store/cloud.go: what an upsert of a credential shows at every key.
use matrix_runtime.Common.{
  ◌≡◌, refl, sym, ap, ◌∙◌, Bool, true, ◌&&◌, List, [], ◌∷◌, map, Option, none, some, find?, any,
  if◌then◌else◌, if-intro, arith, Text, some_inj,
}
use matrix_runtime.Common.Strings.{eq_text, eq_text_iff}
use matrix_runtime.Store.Credentials.{CredentialRow, Key, has_key, updated, upsert}

-- Two keys of one row.
abbrev pub same_key : Key → Key → Bool
same_key k j =
    eq_text k.workspace_id j.workspace_id
    && eq_text k.provider j.provider
    && eq_text k.label j.label

module _ (k j : Key) (r : CredentialRow) where
  has_key-same : has_key k r ≡ true → has_key j r ≡ same_key k j
  has_key-same h = ground (
    arith,
    eq_text_iff r.workspace_id k.workspace_id,
    eq_text_iff r.provider k.provider,
    eq_text_iff r.label k.label,
  )

  has_key-swap : same_key k j ≡ true → has_key j r ≡ has_key k r
  has_key-swap h = ground (
    arith,
    eq_text_iff k.workspace_id j.workspace_id,
    eq_text_iff k.provider j.provider,
    eq_text_iff k.label j.label,
  )

abbrev pub enc_of : Option CredentialRow → Option Text
enc_of none = none
enc_of (some r) = some r.secret_enc

module _ (k j : Key) (r : CredentialRow) where
  has_key-updated : (o : CredentialRow) → has_key j (updated k r o) ≡ has_key j o
  has_key-updated o =
      if-intro (λ x. has_key j x ≡ has_key j o) (has_key k o) (λ e. refl) (λ e. refl)

  enc-updated :
      (o : CredentialRow)
      → (updated k r o).secret_enc ≡ (if has_key k o then r.secret_enc else o.secret_enc)
  enc-updated o = if-intro Shown (has_key k o) (λ e. ground (arith, e)) (λ e. ground (arith, e))
    where
      Shown : CredentialRow → Type 0
      Shown x = x.secret_enc ≡ (if has_key k o then r.secret_enc else o.secret_enc)

  -- The cipher that a key shows after an update of the rows with another or the same key.
  enc_of-update :
      (rows : List CredentialRow)
      → enc_of (find? (has_key j) (map (updated k r) rows)) ≡ (
          if same_key k j && any (has_key k) rows
          then some r.secret_enc
          else enc_of (find? (has_key j) rows))
  enc_of-update [] = ground arith
  enc_of-update (o ∷ rows) = ground (
    arith,
    has_key-updated o,
    enc-updated o,
    has_key-same k j o,
    has_key-swap k j o,
    enc_of-update rows,
  )

-- The same after an upsert.
pub enc_of-upsert :
    (k j : Key) (r : CredentialRow) (rows rows' : List CredentialRow)
    → has_key k r ≡ true
    → upsert k r rows ≡ some rows'
    → enc_of (find? (has_key j) rows')
      ≡ (if same_key k j then some r.secret_enc else enc_of (find? (has_key j) rows))
unfolding upsert
enc_of-upsert k j r rows rows' own =
    if-intro Shows (any (has_key k) rows)
      (λ e h.
        ap (λ l. enc_of (find? (has_key j) l)) (sym (some_inj h))
        ∙ enc_of-update k j r rows
        ∙ ground (arith, e))
      (λ e.
        if-intro Shows (any (λ o. eq_text o.id r.id) rows) (λ f h. absurd (cc h))
          (λ f h.
            ap (λ l. enc_of (find? (has_key j) l)) (sym (some_inj h))
            ∙ ground (arith, has_key-same k j r own)))
  where
    Shows : Option (List CredentialRow) → Type 0
    Shows o =
        o ≡ some rows'
        → enc_of (find? (has_key j) rows')
          ≡ (if same_key k j then some r.secret_enc else enc_of (find? (has_key j) rows))
