-- ===== src/Store/Resets/Login.antt =====
-- The password that a reset sets is the one that logs in.
use matrix_runtime.Common.{
  ℕ, ◌≡◌, refl, sym, ap, ◌∙◌, subst, false, List, [], ◌∷◌, Option, none, some, find?, arith,
  Option-cases, Bool-cases, inl, inr, Text, some_inj,
}
use matrix_runtime.Common.Strings.{eq_text, eq_text_iff}
use matrix_runtime.Auth.Hex.{Bytes, IsBytes}
use matrix_runtime.Auth.Password.{hash_password}
use matrix_runtime.Auth.Password.RoundTrip.{IsKey, verify-hash_iff}
use matrix_runtime.Store.Tables.{
  Tables, UserRow, User, ok, Faults, user_with_email, normal_email, join, with_workspace,
}
use matrix_runtime.Store.Sessions.{login, checked_login}
use matrix_runtime.Store.Resets.{set_hash}
use matrix_runtime.Store.Resets.Laws.{IsReset, after_reset}

-- Setting a hash changes no e-mail address.
find?-set_hash :
    (id hash email : Text) (us : List UserRow) (row : UserRow)
    → find? (λ u. eq_text u.email email) us ≡ some row
    → row.id ≡ id
    → find? (λ u. eq_text u.email email) (set_hash id hash us)
      ≡ some (record row { password_hash = hash })
find?-set_hash id hash email [] row h i = absurd (cc h)
find?-set_hash id hash email (u ∷ us) row h i = elim (Bool-cases (eq_text u.email email)) [
  | inl e ↦ ground (arith, eq_text_iff u.id id)
  | inr e ↦ ground (arith, find?-set_hash id hash email us row)
]

join_inv :
    (t : Tables) (o : Option UserRow) (row : UserRow) (u : User)
    → join t o ≡ some (row, u)
    → (o ≡ some row)
      × ((hash : Text)
          → join t (some (record row { password_hash = hash }))
            ≡ some (record row { password_hash = hash }, u))
join_inv t none row u h = absurd (cc h)
join_inv t (some r) row u h =
    elim (Option-cases (find? (λ w. eq_text w.id r.workspace_id) t.workspaces)) [
      | inl e ↦ absurd (cc (sym h ∙ ap (with_workspace t r) e))
      | inr (w, e) ↦
          subst (Rejoins r) (some_inj (sym (ap (with_workspace t r) e) ∙ h))
            (refl, λ hash. ap (with_workspace t (record r { password_hash = hash })) e)
    ]
  where
    Rejoins : UserRow → UserRow × User → Type 0
    Rejoins r (row, u) =
        (some r ≡ some row)
        × ((hash : Text)
            → join t (some (record row { password_hash = hash }))
              ≡ some (record row { password_hash = hash }, u))

-- After a reset the new password logs its user in.
pub login_after_reset :
    (sha256 : Bytes → Bytes) (hmac : Bytes → Bytes → Bytes) (lower : Text → Text) (fails : Faults)
    (salt : Option Bytes) (secret password email : Text) (now : ℕ) (t t' : Tables) (row : UserRow)
    (u : User)
    → ((k m : Bytes) → IsKey (hmac k m))
    → (r : IsReset sha256 hmac salt secret password now t t') → IsBytes r.bytes
    → user_with_email (normal_email lower email) t ≡ some (row, u)
    → row.id ≡ r.link.user_id
    → fails 0 ≡ false
    → login hmac lower fails email password t' ≡ ok u
unfolding login user_with_email
login_after_reset sha256 hmac lower fails salt secret password email now t t' row u mac r random
      found own up =
    subst (λ x. login hmac lower fails email password x ≡ ok u) (sym r.applied)
      (ground (arith, after inverted.0 inverted.1, checked))
  where
    hash : Text
    hash = hash_password hmac r.bytes password

    row' : UserRow
    row' = record row { password_hash = hash }

    done : Tables
    done = after_reset hash r.link now t

    inverted :
        (find? (λ u. eq_text u.email (normal_email lower email)) t.users ≡ some row)
        × ((hash : Text)
            → join t (some (record row { password_hash = hash }))
              ≡ some (record row { password_hash = hash }, u))
    inverted =
        join_inv t (find? (λ u. eq_text u.email (normal_email lower email)) t.users) row u found

    after :
        find? (λ u. eq_text u.email (normal_email lower email)) t.users ≡ some row
        → ((hash : Text)
            → join t (some (record row { password_hash = hash }))
              ≡ some (record row { password_hash = hash }, u))
        → user_with_email (normal_email lower email) done ≡ some (row', u)
    after first rejoin =
        ap (join done)
          (find?-set_hash r.link.user_id hash (normal_email lower email) t.users row first own)
        ∙ rejoin hash

    checked : checked_login hmac password (some (row', u)) ≡ ok u
    checked = ground (arith, (verify-hash_iff hmac mac r.bytes password password random).1 refl)
