-- ===== src/Store/Sessions/Laws.antt =====
-- How long a session lasts, and what revokes it.
use matrix_runtime.Common.{
  ℕ, ◌+◌, ◌≡◌, ◌≢◌, refl, sym, ap, ◌∙◌, subst, Bool, true, false, not, ◌||◌, List, [], ◌∷◌, Option,
  none, some, find?, keep, any, arith, if◌then◌else◌, if-intro, Option-cases, inl, inr, Text,
  some_inj,
}
use matrix_runtime.Common.Strings.{eq_text, eq_text_iff, is_empty}
use matrix_runtime.Store.Tables.{
  Tables, UserRow, SessionRow, User, Result, ok, err, not_found, Faults, user_with_id, seconds,
  is_after, join, with_workspace,
}
use matrix_runtime.Store.Sessions.{
  session_ttl, insert_session, create_session, delete_user_sessions, user_by_session,
  joined_session, of_session, inserted,
}

-- What is found passes the test.
pub find?_passes {ℓ} :
    {A : Type ℓ} (p : A → Bool) (xs : List A) (x : A) → find? p xs ≡ some x → p x ≡ true
find?_passes p [] x h = absurd (cc h)
find?_passes p (y ∷ ys) x h = ground (arith, find?_passes p ys x)

-- A test that is kept to is passed by all that is found.
find?-keep {ℓ} :
    {A : Type ℓ} (p q : A → Bool) (xs : List A) (x : A) → find? p (keep q xs) ≡ some x → q x ≡ true
find?-keep p q [] x h = absurd (cc h)
find?-keep p q (y ∷ ys) x h = ground (arith, find?-keep p q ys x)

abbrev new_session : Text → Text → ℕ → SessionRow
new_session token user_id now = record {
  token = token;
  user_id = user_id;
  created_at = seconds now;
  expires_at = seconds (now + session_ttl);
}

abbrev opened : Text → Text → ℕ → Tables → Tables
opened token user_id now t = record t { sessions = new_session token user_id now ∷ t.sessions }

create_session_inv :
    (fails : Faults) (token user_id : Text) (now : ℕ) (t t' : Tables)
    → create_session fails (some token) user_id now t ≡ (ok token, t')
    → t' ≡ opened token user_id now t
unfolding create_session insert_session
create_session_inv fails token user_id now t t' =
    if-intro (λ x. x ≡ (ok token, t') → t' ≡ opened token user_id now t) (fails 0)
      (λ e h. absurd (cc h))
      (λ e.
        if-intro (λ o. inserted token t o ≡ (ok token, t') → t' ≡ opened token user_id now t)
          (any (λ r. eq_text r.token token) t.sessions
            || not (any (λ u. eq_text u.id user_id) t.users))
          (λ e h. absurd (cc h)) (λ e h. sym (ap (λ x. x.1) h)))

user_by_session_up :
    (fails : Faults) (token : Text) (now : ℕ) (t : Tables)
    → is_empty token ≡ false
    → fails 0 ≡ false
    → user_by_session fails token now t
      ≡ joined_session fails token now t (find? (λ s. eq_text s.token token) t.sessions)
unfolding user_by_session
user_by_session_up fails token now t nonempty up = ground arith

-- The user that a new session stands for, and nobody once the session has expired.
pub session_lifetime :
    (fails fails' : Faults) (token user_id : Text) (now later : ℕ) (t t' : Tables) (row : UserRow)
    (u : User)
    → user_with_id user_id t ≡ some (row, u)
    → is_empty token ≡ false
    → create_session fails (some token) user_id now t ≡ (ok token, t')
    → fails' 0 ≡ false
    → (user_by_session fails' token later t').0
      ≡ (if is_after later (seconds (now + session_ttl)) then err not_found else ok u)
unfolding create_session insert_session user_by_session user_with_id
session_lifetime fails fails' token user_id now later t t' row u found nonempty created up =
    subst (λ x. (user_by_session fails' token later x).0 ≡ expected)
      (sym (create_session_inv fails token user_id now t t' created)) shown
  where
    expected : Result User
    expected = if is_after later (seconds (now + session_ttl)) then err not_found else ok u

    first :
        find? (λ s. eq_text s.token token) (opened token user_id now t).sessions
        ≡ some (new_session token user_id now)
    first = ground (arith, eq_text_iff token token)

    of_found :
        (of_session fails' token later
          (opened token user_id now t)
          (new_session token user_id now)
          (some (row, u))).0
        ≡ expected
    of_found = ground arith

    shown : (user_by_session fails' token later (opened token user_id now t)).0 ≡ expected
    shown =
        ap (λ x. x.0)
          (user_by_session_up fails' token later (opened token user_id now t) nonempty up
            ∙ ap (joined_session fails' token later (opened token user_id now t)) first
            ∙ ap
                (of_session fails' token later (opened token user_id now t)
                  (new_session token user_id now))
                found)
        ∙ of_found

user_with_id_id :
    (id : Text) (t : Tables) (row : UserRow) (u : User)
    → user_with_id id t ≡ some (row, u)
    → u.id ≡ id
unfolding user_with_id
user_with_id_id id t row u = elim (Option-cases (find? (λ r. eq_text r.id id) t.users)) [
  | inl e ↦ subst (λ o. join t o ≡ some (row, u) → u.id ≡ id) (sym e) (λ h. absurd (cc h))
  | inr (r, e) ↦ subst (λ o. join t o ≡ some (row, u) → u.id ≡ id) (sym e) (named r e)
]
  where
    named :
        (r : UserRow)
        → find? (λ r. eq_text r.id id) t.users ≡ some r
        → join t (some r) ≡ some (row, u)
        → u.id ≡ id
    named r e = elim (Option-cases (find? (λ w. eq_text w.id r.workspace_id) t.workspaces)) [
      | inl f ↦
          subst (λ o. with_workspace t r o ≡ some (row, u) → u.id ≡ id) (sym f) (λ h. absurd (cc h))
      | inr (w, f) ↦
          subst (λ o. with_workspace t r o ≡ some (row, u) → u.id ≡ id) (sym f)
            (λ h.
              sym (ap (λ x. x.1.id) (some_inj h))
              ∙ (eq_text_iff r.id id).0 (find?_passes (λ r. eq_text r.id id) t.users r e))
    ]

of_session_inv :
    (fails : Faults) (token : Text) (now : ℕ) (t : Tables) (s : SessionRow) (u : User)
    (o : Option (UserRow × User))
    → (of_session fails token now t s o).0 ≡ ok u
    → (row : UserRow) × (o ≡ some (row, u))
of_session_inv fails token now t s u none h = absurd (cc h)
of_session_inv fails token now t s u (some (row, v)) h =
    if-intro Shown (is_after now s.expires_at) (λ e h. absurd (cc h)) (λ e h. (row, cc h)) h
  where
    Shown : Result User × Tables → Type 0
    Shown x =
        x.0 ≡ ok u
        → (r : UserRow) × (◌≡◌ {A = Option (UserRow × User)} (some (row, v)) (some (r, u)))

joined_session_inv :
    (fails : Faults) (token : Text) (now : ℕ) (t : Tables) (u : User) (o : Option SessionRow)
    → (joined_session fails token now t o).0 ≡ ok u
    → (s : SessionRow) × (o ≡ some s) × (u.id ≡ s.user_id)
joined_session_inv fails token now t u none h = absurd (cc h)
joined_session_inv fails token now t u (some s) h =
    let (row, e) = of_session_inv fails token now t s u (user_with_id s.user_id t) h in
    (s, refl, user_with_id_id s.user_id t row u e)

-- The session and the user behind an answer.
user_by_session_inv :
    (fails : Faults) (token : Text) (now : ℕ) (t : Tables) (u : User)
    → (user_by_session fails token now t).0 ≡ ok u
    → (s : SessionRow) × (find? (λ s. eq_text s.token token) t.sessions ≡ some s)
      × (u.id ≡ s.user_id)
unfolding user_by_session
user_by_session_inv fails token now t u =
    if-intro Shown (is_empty token) (λ e h. absurd (cc h))
      (λ e.
        if-intro Shown (fails 0) (λ f h. absurd (cc h))
          (λ f.
            joined_session_inv fails token now t u (find? (λ s. eq_text s.token token) t.sessions)))
  where
    Shown : Result User × Tables → Type 0
    Shown x =
        x.0 ≡ ok u
        → (s : SessionRow) × (find? (λ s. eq_text s.token token) t.sessions ≡ some s)
          × (u.id ≡ s.user_id)

-- After a user's sessions are deleted, no token is that user's.
pub revoked_sessions_resolve_to_others :
    (fails fails' : Faults) (user_id token : Text) (now : ℕ) (t t' : Tables) (u : User)
    → delete_user_sessions fails user_id t ≡ (none, t')
    → (user_by_session fails' token now t').0 ≡ ok u
    → u.id ≢ user_id
unfolding delete_user_sessions user_by_session user_with_id
revoked_sessions_resolve_to_others fails fails' user_id token now t t' u deleted shown same =
    let (s, found, owner) = user_by_session_inv fails' token now t' u shown in
    kept s found (sym owner ∙ same)
  where
    sessions : t'.sessions ≡ keep (λ s. not (eq_text s.user_id user_id)) t.sessions
    sessions = ground arith

    kept :
        (s : SessionRow)
        → find? (λ s. eq_text s.token token) t'.sessions ≡ some s
        → s.user_id ≢ user_id
    kept s found is_owner = ground (
      arith,
      eq_text_iff s.user_id user_id,
      find?-keep (λ s. eq_text s.token token) (λ s. not (eq_text s.user_id user_id)) t.sessions s
          (subst (λ l. find? (λ s. eq_text s.token token) l ≡ some s) sessions found),
    )
