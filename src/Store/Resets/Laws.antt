-- ===== src/Store/Resets/Laws.antt =====
-- What a reset does: the password is set, the sessions are revoked, and the link is spent.
use matrix_runtime.Common.{
  ℕ, ◌≡◌, refl, sym, ap, ◌∙◌, true, false, not, List, [], ◌∷◌, Option, none, some, find?, keep,
  is_some, arith, ltb, if-intro, Text,
}
use matrix_runtime.Common.Strings.{eq_text, byte_len}
use matrix_runtime.Auth.Hex.{Bytes}
use matrix_runtime.Auth.Password.{fast_hash, hash_password}
use matrix_runtime.Store.Tables.{
  Tables, LinkRow, Result, ok, err, StoreError, Faults, seconds, is_after,
}
use matrix_runtime.Store.Sessions.{delete_user_sessions}
use matrix_runtime.Store.Resets.{
  ResetWrite, write_reset, apply_reset, checked_link, read_reset, finish_reset, reset_password,
  mark_used, set_hash,
}

-- The tables after a reset of which every statement succeeds.
abbrev pub after_reset : Text → LinkRow → ℕ → Tables → Tables
after_reset hash l now t = record t {
  users = set_hash l.user_id hash t.users;
  resets = mark_used l.id (seconds now) t.resets;
  sessions = keep (λ s. not (eq_text s.user_id l.user_id)) t.sessions;
}

-- A link that is stored, not used and not expired, and a salt.
pub record IsReset (sha256 : Bytes → Bytes) (hmac : Bytes → Bytes → Bytes) (salt : Option Bytes)
    (secret password : Text) (now : ℕ) (t t' : Tables) : Type 0 where
  pub link : LinkRow
  pub bytes : Bytes
  pub stored : find? (λ l. eq_text l.token_hash (fast_hash sha256 secret)) t.resets ≡ some link
  pub unused : link.used_at ≡ none
  pub live : is_after now link.expires_at ≡ false
  pub salted : salt ≡ some bytes
  pub applied : t' ≡ after_reset (hash_password hmac bytes password) link now t

apply_reset_inv :
    (fails : Faults) (hash : Text) (l : LinkRow) (now : ℕ) (t t' : Tables)
    → apply_reset fails hash l now t ≡ (none, t')
    → t' ≡ after_reset hash l now t
unfolding delete_user_sessions
apply_reset_inv fails hash l now t t' =
    if-intro Applied (fails 1) (λ e h. absurd (cc h))
      (λ e.
        if-intro Applied (fails 2) (λ f h. absurd (cc h))
          (λ f. if-intro Applied (fails 3) (λ g h. absurd (cc h)) (λ g h. sym (ap (λ x. x.1) h))))
  where
    Applied : Option StoreError × Tables → Type 0
    Applied x = x ≡ (none, t') → t' ≡ after_reset hash l now t

-- A link that passes the checks.
checked_link_inv :
    (now : ℕ) (o : Option LinkRow) (l : LinkRow)
    → checked_link now o ≡ ok l
    → (o ≡ some l) × (l.used_at ≡ none) × (is_after now l.expires_at ≡ false)
checked_link_inv now none l h = absurd (cc h)
checked_link_inv now (some k) l h =
    if-intro Passes (is_some k.used_at) (λ e h. absurd (cc h))
      (λ e.
        if-intro Passes (is_after now k.expires_at) (λ f h. absurd (cc h))
          (λ f h.
            let same : k ≡ l = cc h in
            (
              ap some same,
              ap (λ x. x.used_at) (sym same) ∙ ground (arith, e),
              ap (λ x. is_after now x.expires_at) (sym same) ∙ f,
            )))
      h
  where
    Passes : Result LinkRow → Type 0
    Passes x =
        x ≡ ok l → (some k ≡ some l) × (l.used_at ≡ none) × (is_after now l.expires_at ≡ false)

read_reset_inv :
    (sha256 : Bytes → Bytes) (fails : Faults) (secret password : Text) (now : ℕ) (t : Tables)
    (l : LinkRow)
    → read_reset sha256 fails secret password now t ≡ ok l
    → (find? (λ l. eq_text l.token_hash (fast_hash sha256 secret)) t.resets ≡ some l)
      × (l.used_at ≡ none)
      × (is_after now l.expires_at ≡ false)
unfolding read_reset
read_reset_inv sha256 fails secret password now t l =
    if-intro Reads (ltb (byte_len password) 8) (λ e h. absurd (cc h))
      (λ e.
        if-intro Reads (fails 0) (λ f h. absurd (cc h))
          (λ f.
            checked_link_inv now
              (find? (λ l. eq_text l.token_hash (fast_hash sha256 secret)) t.resets) l))
  where
    Reads : Result LinkRow → Type 0
    Reads x =
        x ≡ ok l
        → (find? (λ l. eq_text l.token_hash (fast_hash sha256 secret)) t.resets ≡ some l)
          × (l.used_at ≡ none)
          × (is_after now l.expires_at ≡ false)

finish_reset_inv :
    (hmac : Bytes → Bytes → Bytes) (fails : Faults) (salt : Option Bytes) (password : Text)
    (now : ℕ) (t t' : Tables) (r : Result LinkRow)
    → finish_reset hmac fails salt password now t r ≡ (none, t')
    → (l : LinkRow) × (bytes : Bytes) × (r ≡ ok l)
      × (salt ≡ some bytes)
      × (t' ≡ after_reset (hash_password hmac bytes password) l now t)
finish_reset_inv hmac fails salt password now t t' (err e) h = absurd (cc h)
finish_reset_inv hmac fails none password now t t' (ok l) h = absurd (cc h)
finish_reset_inv hmac fails (some bytes) password now t t' (ok l) h =
    (l, bytes, refl, refl, apply_reset_inv fails _ l now t t' h)

-- A reset that succeeds, on tables that nothing else changes meanwhile, spends a live link, sets the
-- password of its user, and removes exactly the sessions of that user.
pub reset_password_lem :
    (sha256 : Bytes → Bytes) (hmac : Bytes → Bytes → Bytes) (fails : Faults) (salt : Option Bytes)
    (secret password : Text) (now : ℕ) (t t' : Tables)
    → reset_password sha256 hmac fails salt secret password now t ≡ (none, t')
    → IsReset sha256 hmac salt secret password now t t'
unfolding reset_password
reset_password_lem sha256 hmac fails salt secret password now t t' h =
    let (l, bytes, read, salted, after) =
      finish_reset_inv hmac fails salt password now t t'
        (read_reset sha256 fails secret password now t) h in
    let (stored, unused, live) = read_reset_inv sha256 fails secret password now t l read in
    record {
      link = l;
      bytes = bytes;
      stored = stored;
      unused = unused;
      live = live;
      salted = salted;
      applied = after;
    }

-- The writes of any resets, in their order.
abbrev pub write_resets : List ResetWrite → Tables → Tables
write_resets [] t = t
write_resets (w ∷ ws) t = write_resets ws (write_reset w t)

-- The link with a hash has been used.
abbrev IsSpent : Text → List LinkRow → Type 0
IsSpent hash ls =
    (l : LinkRow) × (find? (λ r. eq_text r.token_hash hash) ls ≡ some l)
    × (is_some l.used_at ≡ true)
