-- ===== src/Store/Signup/Laws.antt =====
-- A signup changes nothing or adds one workspace with its owner, who can log in.
use matrix_runtime.Common.{
  ◌≡◌, refl, sym, ◌∙◌, subst, ◌⊎◌, Bool, false, not, ◌||◌, List, [], ◌∷◌, some, any, if-intro,
  Option-cases, inl, inr, arith, Text, some_inj,
}
use matrix_runtime.Common.Strings.{eq_text, eq_text_iff}
use matrix_runtime.Auth.Hex.{Bytes, IsBytes}
use matrix_runtime.Auth.Password.{hash_password}
use matrix_runtime.Auth.Password.RoundTrip.{IsKey, verify-hash_iff}
use matrix_runtime.Store.Tables.{
  Tables, UserRow, Workspace, User, StoreError, Result, ok, err, database, no_random, constraint,
  email_taken, Faults, view, user_with_email, normal_email,
}
use matrix_runtime.Store.Sessions.{login, checked_login}
use matrix_runtime.Store.Signup.{
  Signup, signup, salted_signup, transact, commit, then_user, insert_workspace, insert_user,
  is_taken, new_workspace, new_user, workspace_name,
}

-- The tables with a new workspace and its owner.
abbrev pub with_owner : Workspace → UserRow → Tables → Tables
with_owner w u t = record t { workspaces = w ∷ t.workspaces; users = u ∷ t.users }

-- The transaction fails and rolls back, or adds both rows, of which the slug and the e-mail address are new.
abbrev Transacts : Workspace → UserRow → Tables → Result User × Tables → Type 0
Transacts w u t x =
    ((e : StoreError) × (x ≡ (err e, t)))
    ⊎ ((x ≡ (ok (view u w), with_owner w u t))
        × (is_taken w.slug t.workspaces ≡ false)
        × (any (λ o. eq_text o.email u.email) t.users ≡ false))

any-or {ℓ} :
    {A : Type ℓ} (p q : A → Bool) (xs : List A)
    → any (λ x. p x || q x) xs ≡ false
    → any q xs ≡ false
any-or p q [] h = refl
any-or p q (x ∷ xs) h = ground (arith, any-or p q xs)

transact-Transacts :
    (fails : Faults) (w : Workspace) (u : UserRow) (t : Tables)
    → Transacts w u t (transact fails w u t)
unfolding insert_workspace insert_user
transact-Transacts fails w u t =
    if-intro (Transacts w u t) (fails 1 || fails 2 || fails 3) (λ e. inl (database, refl))
      (λ e.
        if-intro (λ o. Transacts w u t (commit (fails 4) (view u w) t (then_user u o)))
          (any (λ o. eq_text o.id w.id) t.workspaces || is_taken w.slug t.workspaces)
          (λ f. inl (constraint, refl))
          (λ f.
            if-intro (λ o. Transacts w u t (commit (fails 4) (view u w) t o))
              (any (λ o. eq_text o.id u.id || eq_text o.email u.email) t.users
                || not (any (λ o. eq_text o.id u.workspace_id) (w ∷ t.workspaces)))
              (λ g. inl (constraint, refl))
              (λ g.
                if-intro (Transacts w u t) (fails 4) (λ k. inl (database, refl))
                  (λ k. inr (
                    refl,
                    ground (arith, f),
                    any-or (λ o. eq_text o.id u.id) (λ o. eq_text o.email u.email) t.users
                        (ground (arith, g)),
                  )))))

module _ (hmac : Bytes → Bytes → Bytes) (lower : Text → Text) (fails slug_fails : Faults) where
  -- What a signup with a salt adds.
  pub record Adds (r : Signup) (t : Tables) (salt : Bytes) (x : Result User × Tables) : Type 0 where
    pub workspace : Workspace
    pub owner : UserRow
    pub salted : r.salt ≡ some salt
    pub added : x ≡ (ok (view owner workspace), with_owner workspace owner t)
    pub new_slug : is_taken workspace.slug t.workspaces ≡ false
    pub new_email : any (λ o. eq_text o.email (normal_email lower r.email)) t.users ≡ false
    pub email : owner.email ≡ normal_email lower r.email
    pub member : owner.workspace_id ≡ workspace.id
    pub hash : owner.password_hash ≡ hash_password hmac salt r.password

  -- A signup that fails leaves every table as it was, whatever fails and wherever. One that succeeds adds one
  -- workspace with a new slug and one owner in it with a new e-mail address and the hash of the password.
  pub signup_lem :
      (r : Signup) (t : Tables)
      → ((e : StoreError) × (signup hmac lower fails slug_fails r t ≡ (err e, t)))
        ⊎ ((salt : Bytes) × Adds r t salt (signup hmac lower fails slug_fails r t))
  unfolding signup
  signup_lem r t =
      if-intro Outcome (fails 0) (λ e. inl (database, refl))
        (λ e.
          if-intro Outcome (any (λ u. eq_text u.email (normal_email lower r.email)) t.users)
            (λ f. inl (email_taken, refl)) (λ f. salted f))
    where
      Outcome : Result User × Tables → Type 0
      Outcome x = ((e : StoreError) × (x ≡ (err e, t))) ⊎ ((salt : Bytes) × Adds r t salt x)

      salted :
          any (λ u. eq_text u.email (normal_email lower r.email)) t.users ≡ false
          → Outcome (salted_signup hmac lower fails slug_fails r t r.salt)
      salted f = elim (Option-cases r.salt) [
        | inl e ↦
            subst (λ o. Outcome (salted_signup hmac lower fails slug_fails r t o)) (sym e)
              (inl (no_random, refl))
        | inr (salt, e) ↦
            subst (λ o. Outcome (salted_signup hmac lower fails slug_fails r t o)) (sym e)
              (added salt e)
      ]
        where
          email : Text
          email = normal_email lower r.email

          w : Workspace
          w =
              new_workspace lower slug_fails r.workspace_id
                (workspace_name r.workspace r.name email) r.now t

          added :
              (salt : Bytes)
              → r.salt ≡ some salt
              → Outcome (salted_signup hmac lower fails slug_fails r t (some salt))
          added salt e =
              let u =
                new_user r.user_id r.workspace_id r.name email (hash_password hmac salt r.password)
                  r.now in
              elim (transact-Transacts fails w u t) [
                | inl failed ↦ inl failed
                | inr (x, slug, address) ↦ inr (
                  salt,
                  record {
                    workspace = w;
                    owner = u;
                    salted = e;
                    added = x;
                    new_slug = slug;
                    new_email = address;
                    email = refl;
                    member = refl;
                    hash = refl;
                  },
                )
              ]

-- The new owner is found by the address and passes with the password.
owner_logs_in :
    (hmac : Bytes → Bytes → Bytes) (lower : Text → Text) (fails : Faults) (email password : Text)
    (salt : Bytes) (w : Workspace) (u : UserRow) (t : Tables)
    → ((k m : Bytes) → IsKey (hmac k m))
    → IsBytes salt
    → u.email ≡ normal_email lower email
    → u.workspace_id ≡ w.id
    → u.password_hash ≡ hash_password hmac salt password
    → fails 0 ≡ false
    → login hmac lower fails email password (with_owner w u t) ≡ ok (view u w)
unfolding login user_with_email
owner_logs_in hmac lower fails email password salt w u t mac random address member hash up =
    ground (arith, found, checked)
  where
    found : user_with_email (normal_email lower email) (with_owner w u t) ≡ some (u, view u w)
    found =
        ground
          (arith, eq_text_iff u.email (normal_email lower email), eq_text_iff w.id u.workspace_id)

    checked : checked_login hmac password (some (u, view u w)) ≡ ok (view u w)
    checked = ground (arith, hash, (verify-hash_iff hmac mac salt password password random).1 refl)

-- Who has signed up can log in with the same address and password.
pub login_after_signup :
    (hmac : Bytes → Bytes → Bytes) (lower : Text → Text) (fails slug_fails fails' : Faults)
    (r : Signup) (t t' : Tables) (u : User) (salt : Bytes)
    → ((k m : Bytes) → IsKey (hmac k m))
    → r.salt ≡ some salt
    → IsBytes salt
    → signup hmac lower fails slug_fails r t ≡ (ok u, t')
    → fails' 0 ≡ false
    → login hmac lower fails' r.email r.password t' ≡ ok u
unfolding login
login_after_signup hmac lower fails slug_fails fails' r t t' u salt mac salted random signed up =
    elim (signup_lem hmac lower fails slug_fails r t) [
      | inl (e, failed) ↦ absurd (cc (sym signed ∙ failed))
      | inr (salt', a) ↦ subst LogsIn (sym a.added ∙ signed) (
          owner_logs_in hmac lower fails' r.email r.password salt' a.workspace a.owner t mac
            (subst IsBytes (some_inj (sym salted ∙ a.salted)) random) a.email a.member a.hash up)
    ]
  where
    LogsIn : Result User × Tables → Type 0
    LogsIn x = login hmac lower fails' r.email r.password x.1 ≡ x.0
