-- ===== src/Store/Cloud/Uses.antt =====
-- How often a join token is redeemed, however it is tried.
use matrix_runtime.Common.{
  ℕ, suc, ◌+◌, ◌-◌, ◌≤◌, ◌≡◌, refl, sym, ap, ◌∙◌, subst, Bool, true, false, ◌&&◌, List, [], ◌∷◌,
  Option, none, some, find?, if◌then◌else◌, if-intro, Bool-cases, inl, inr, some_inj, ◌⊎◌, arith,
  Text,
}
use matrix_runtime.Common.Int.{pos_part}
use matrix_runtime.Common.Strings.{eq_text, eq_text_iff}
use matrix_runtime.Auth.Hex.{Bytes}
use matrix_runtime.Auth.Password.{fast_hash}
use matrix_runtime.Store.Tables.{Faults}
use matrix_runtime.Store.Cloud.{
  TokenRow, TokenError, database, invalid, revoked, expired, already_used, Answer, granted, denied,
  add_use, is_exhausted, has_expired, checked_redeem, redeem_join_token,
}

-- An attempt: the secret, the clock, and the statements that fail.
pub record Attempt : Type 0 where
  pub secret : Text
  pub now : ℕ
  pub fails : Faults

abbrev pub is_granted : Answer → Bool
is_granted (granted ws) = true
is_granted (denied e) = false

module _ (sha256 : Bytes → Bytes) where
  -- How many attempts with the digest of one secret are granted, among attempts with any.
  unfoldable pub redeemed : Text → List Attempt → List TokenRow → ℕ
  redeemed hash [] rows = 0
  redeemed hash (a ∷ rest) rows =
      let (answer, rows') = redeem_join_token sha256 a.fails a.secret a.now rows in
      let n = redeemed hash rest rows' in
      if is_granted answer && eq_text (fast_hash sha256 a.secret) hash then suc n else n

find?-add_use :
    (hash id : Text) (rows : List TokenRow) (r : TokenRow)
    → find? (λ o. eq_text o.token_hash hash) rows ≡ some r
    → find? (λ o. eq_text o.token_hash hash) (add_use id rows)
      ≡ some (if eq_text r.id id then record r { uses = r.uses + 1 } else r)
find?-add_use hash id [] r h = absurd (cc h)
find?-add_use hash id (o ∷ rows) r h = elim (Bool-cases (eq_text o.token_hash hash)) [
  | inl e ↦ ground arith
  | inr e ↦ ground (arith, find?-add_use hash id rows r)
]

-- What an attempt comes to.
abbrev Comes : (Bytes → Bytes) → Text → List TokenRow → Answer × List TokenRow → Type 0
Comes sha256 secret rows x =
    ((e : TokenError) × (x ≡ (denied e, rows)))
    ⊎ ((q : TokenRow) × (find? (λ r. eq_text r.token_hash (fast_hash sha256 secret)) rows ≡ some q)
        × (is_exhausted q ≡ false)
        × (x ≡ (granted q.workspace_id, add_use q.id rows)))

module _ (sha256 : Bytes → Bytes) (a : Attempt) (rows : List TokenRow) where
  checked_cases :
      (o : Option TokenRow)
      → find? (λ r. eq_text r.token_hash (fast_hash sha256 a.secret)) rows ≡ o
      → Comes sha256 a.secret rows (checked_redeem a.fails a.now rows o)
  checked_cases none h = inl (invalid, refl)
  checked_cases (some r) h =
      if-intro (Comes sha256 a.secret rows) r.revoked (λ e. inl (revoked, refl))
        (λ e.
          if-intro (Comes sha256 a.secret rows) (has_expired a.now r.expires_at)
            (λ f. inl (expired, refl))
            (λ f.
              if-intro (Comes sha256 a.secret rows) (is_exhausted r) (λ g. inl (already_used, refl))
                (λ g.
                  if-intro (Comes sha256 a.secret rows) (a.fails 1) (λ k. inl (database, refl))
                    (λ k. inr (r, h, g, refl)))))

  redeem_cases : Comes sha256 a.secret rows (redeem_join_token sha256 a.fails a.secret a.now rows)
  unfolding redeem_join_token
  redeem_cases =
      if-intro (Comes sha256 a.secret rows) (a.fails 0) (λ e. inl (database, refl))
        (λ e.
          checked_cases (find? (λ r. eq_text r.token_hash (fast_hash sha256 a.secret)) rows) refl)

-- What one more attempt adds, its outcome given.
abbrev redeemed_after : (Bytes → Bytes) → Text → Attempt → List Attempt → Answer × List TokenRow → ℕ
redeemed_after sha256 hash a rest x =
    let n = redeemed sha256 hash rest x.1 in
    if is_granted x.0 && eq_text (fast_hash sha256 a.secret) hash then suc n else n

abbrev IsBounded : (Bytes → Bytes) → Text → List Attempt → Type 0
IsBounded sha256 hash attempts =
    (rows : List TokenRow) (r : TokenRow)
    → find? (λ o. eq_text o.token_hash hash) rows ≡ some r
    → redeemed sha256 hash attempts rows ≤ pos_part r.max_uses - r.uses

-- A redemption leaves the token of the digest one use less, or none less if it is another's.
granted_step :
    (sha256 : Bytes → Bytes) (hash : Text) (a : Attempt) (rest : List Attempt)
    (rows : List TokenRow) (r q : TokenRow)
    → IsBounded sha256 hash rest
    → find? (λ o. eq_text o.token_hash hash) rows ≡ some r
    → find? (λ o. eq_text o.token_hash (fast_hash sha256 a.secret)) rows ≡ some q
    → is_exhausted q ≡ false
    → redeemed_after sha256 hash a rest (granted q.workspace_id, add_use q.id rows)
      ≤ pos_part r.max_uses - r.uses
granted_step sha256 hash a rest rows r q ih h g spare =
    elim (Bool-cases (eq_text (fast_hash sha256 a.secret) hash)) [
      | inl e ↦ ground (arith, bound, same e, eq_text_iff r.id q.id)
      | inr e ↦ ground (arith, bound)
    ]
  where
    bound :
        redeemed sha256 hash rest (add_use q.id rows)
        ≤ pos_part (if eq_text r.id q.id then record r { uses = r.uses + 1 } else r).max_uses
          - (if eq_text r.id q.id then record r { uses = r.uses + 1 } else r).uses
    bound = ih (add_use q.id rows) _ (find?-add_use hash q.id rows r h)

    same : eq_text (fast_hash sha256 a.secret) hash ≡ true → q ≡ r
    same e = some_inj (
        sym g
        ∙ ap (λ k. find? (λ o. eq_text o.token_hash k) rows)
            ((eq_text_iff (fast_hash sha256 a.secret) hash).0 e)
        ∙ h)

-- Whatever is tried one after the other, a token is redeemed no more often than its limit leaves.
pub join_token_uses :
    (sha256 : Bytes → Bytes) (hash : Text) (attempts : List Attempt) (rows : List TokenRow)
    (r : TokenRow)
    → find? (λ o. eq_text o.token_hash hash) rows ≡ some r
    → redeemed sha256 hash attempts rows ≤ pos_part r.max_uses - r.uses
unfolding redeemed
join_token_uses sha256 hash [] rows r h = ground arith
join_token_uses sha256 hash (a ∷ rest) rows r h = elim (redeem_cases sha256 a rows) [
  | inl (e, d) ↦
      subst (λ x. redeemed_after sha256 hash a rest x ≤ pos_part r.max_uses - r.uses) (sym d)
        (join_token_uses sha256 hash rest rows r h)
  | inr (q, g, spare, d) ↦
      subst (λ x. redeemed_after sha256 hash a rest x ≤ pos_part r.max_uses - r.uses) (sym d)
        (granted_step sha256 hash a rest rows r q (join_token_uses sha256 hash rest) h g spare)
]
