-- ===== src/Api/RateLimit/Quota.antt =====
-- How many requests of one client pass in one window, whatever the other clients do.
use Prim.Native.Nat.{min}
use matrix_runtime.Common.{
  ℕ, suc, ◌+◌, ◌-◌, ◌≤◌, ◌<◌, ◌≡◌, refl, ◌∙◌, sym, ap, Bool, true, false, not, ◌&&◌, if-intro, List,
  [], ◌∷◌, Option, none, some, arith, All, length, ltb, leb, if◌then◌else◌, Text, Bool-cases,
  Option-cases, lt→ltb, subst, ltb→lt, inl, inr,
}
use matrix_runtime.Common.Int.{ℤ, pos, minus}
use matrix_runtime.Common.Strings.{eq_text, eq_text_iff}
use matrix_runtime.Common.Dict.{Dict, lookup, insert, IsUnique}
use matrix_runtime.Common.Dict.Laws.{
  lookup-insert, lookup-retain, insert-IsUnique, retain-IsUnique, retained,
}
use matrix_runtime.Api.RateLimit.{Window, Limiter, allow, open_window, max_entries, evicted, decide}

-- A request: its client, and the two readings of the clock.
pub record Request : Type 0 where
  pub key : Text
  pub now : ℕ
  pub later : ℕ

-- How many requests of a client are permitted, over a sequence of requests of all clients.
unfoldable pub permitted : Text → List Request → Limiter → ℕ
permitted key [] rl = 0
permitted key (r ∷ rs) rl =
    let (ok, retry, rl') = allow r.key r.now r.later rl in
    let rest = permitted key rs rl' in if eq_text r.key key && ok then suc rest else rest

-- How many requests a client makes.
unfoldable pub made : Text → List Request → ℕ
made key [] = 0
made key (r ∷ rs) = let rest = made key rs in if eq_text r.key key then suc rest else rest

-- Both maps of a limiter hold a key once.
abbrev pub IsLimiter : Limiter → Type 0
IsLimiter rl = IsUnique rl.hits

evicted-IsUnique : (now : ℕ) (d : Dict Window) → IsUnique d → IsUnique (evicted now d)
evicted-IsUnique now d u =
    if-intro IsUnique (ltb max_entries (length d)) (λ e. retain-IsUnique _ d u) (λ e. u)

-- What a request does in its client's live window.
abbrev spend : Request → Window → Limiter → Bool × ℤ × Limiter
spend r w rl =
    if leb rl.limit w.count
    then (false, minus w.reset r.later, rl)
    else (true, pos 0, record rl { hits = insert r.key (record w { count = w.count + 1 }) rl.hits })

-- A client has no window, or one that has passed.
abbrev pub HasPassed : ℕ → Option Window → Type 0
HasPassed now none = Unit
HasPassed now (some w) = w.reset < now

decide_opens :
    (key : Text) (now later : ℕ) (rl : Limiter) (o : Option Window)
    → HasPassed now o
    → decide o key now later rl ≡ (true, pos 0, open_window key now rl)
unfolding open_window
decide_opens key now later rl none h = refl
decide_opens key now later rl (some w) h =
    if-intro (λ x. x ≡ (true, pos 0, open_window key now rl)) (ltb w.reset now) (λ e. refl)
      (λ e. absurd (ground (arith, lt→ltb w.reset now h)))

decide-limit :
    (key : Text) (now later : ℕ) (rl : Limiter) (o : Option Window)
    → (decide o key now later rl).2.limit ≡ rl.limit
unfolding open_window
decide-limit key now later rl none = refl
decide-limit key now later rl (some w) =
    if-intro Keeps (ltb w.reset now) (λ e. refl)
      (λ e. if-intro Keeps (leb rl.limit w.count) (λ e. refl) (λ e. refl))
  where
    Keeps : Bool × ℤ × Limiter → Type 0
    Keeps x = x.2.limit ≡ rl.limit

-- A window that has not passed survives an eviction.
lookup-evicted :
    (now : ℕ) (key : Text) (w : Window) (d : Dict Window)
    → IsUnique d
    → lookup key d ≡ some w
    → now ≤ w.reset
    → lookup key (evicted now d) ≡ some w
lookup-evicted now key w d u l live =
    if-intro (λ h. lookup key h ≡ some w) (ltb max_entries (length d))
      (λ e. lookup-retain (λ k v. not (ltb v.reset now)) key d u ∙ ap (retained _) l ∙ kept)
      (λ e. l)
  where
    kept : retained (λ (v : Window). not (ltb v.reset now)) (some w) ≡ some w
    kept = ground arith

module _ (key : Text) (r : Request) (rl : Limiter) (u : IsLimiter rl) where
  allow-IsLimiter : IsLimiter (allow r.key r.now r.later rl).2
  unfolding allow open_window
  allow-IsLimiter = elim (Option-cases (lookup r.key rl.hits)) [
    | inl e ↦ subst (λ o. IsLimiter (decide o r.key r.now r.later rl).2) (sym e) opened
    | inr (w, e) ↦
        subst (λ o. IsLimiter (decide o r.key r.now r.later rl).2) (sym e)
          (if-intro Holds (ltb w.reset r.now) (λ e. opened)
            (λ e.
              if-intro Holds (leb rl.limit w.count) (λ e. u)
                (λ e. insert-IsUnique r.key _ rl.hits u)))
  ]
    where
      Holds : Bool × ℤ × Limiter → Type 0
      Holds x = IsLimiter x.2

      opened : IsLimiter (open_window r.key r.now rl)
      opened = evicted-IsUnique r.now _ (insert-IsUnique r.key _ rl.hits u)

  -- Another client's request leaves a live window as it is.
  allow_other :
      (w : Window)
      → eq_text r.key key ≡ false
      → lookup key rl.hits ≡ some w
      → r.now ≤ w.reset
      → lookup key (allow r.key r.now r.later rl).2.hits ≡ some w
  unfolding allow open_window
  allow_other w other l live = elim (Option-cases (lookup r.key rl.hits)) [
    | inl e ↦ subst (λ o. Shows (decide o r.key r.now r.later rl)) (sym e) opened
    | inr (v, e) ↦
        subst (λ o. Shows (decide o r.key r.now r.later rl)) (sym e)
          (if-intro Shows (ltb v.reset r.now) (λ e. opened)
            (λ e. if-intro Shows (leb rl.limit v.count) (λ e. l) (λ e. stored _)))
  ]
    where
      Shows : Bool × ℤ × Limiter → Type 0
      Shows x = lookup key x.2.hits ≡ some w

      stored : (v : Window) → lookup key (insert r.key v rl.hits) ≡ some w
      stored v = ground (arith, lookup-insert r.key key v rl.hits)

      opened : lookup key (open_window r.key r.now rl).hits ≡ some w
      opened = lookup-evicted r.now key w _ (insert-IsUnique r.key _ rl.hits u) (stored _) live

  -- The client's own request in a live window is decided by the count, which it raises.
  allow_own :
      (w : Window)
      → r.key ≡ key
      → lookup key rl.hits ≡ some w
      → r.now ≤ w.reset
      → allow r.key r.now r.later rl ≡ spend r w rl
  unfolding allow open_window
  allow_own w own l live =
      ap (λ o. decide o r.key r.now r.later rl) (ap (λ k. lookup k rl.hits) own ∙ l)
      ∙ if-intro (λ x. x ≡ spend r w rl) (ltb w.reset r.now)
          (λ e. absurd (ground (arith, ltb→lt w.reset r.now e))) (λ e. refl)

  -- A window that is missing or has passed is opened anew.
  allow_opens :
      HasPassed r.now (lookup r.key rl.hits)
      → allow r.key r.now r.later rl ≡ (true, pos 0, open_window r.key r.now rl)
  unfolding allow
  allow_opens h = decide_opens r.key r.now r.later rl (lookup r.key rl.hits) h

  allow-limit : (allow r.key r.now r.later rl).2.limit ≡ rl.limit
  unfolding allow
  allow-limit = decide-limit r.key r.now r.later rl (lookup r.key rl.hits)

-- What one more request adds, its outcome given.
abbrev tally : Text → Request → List Request → Bool × ℤ × Limiter → ℕ
tally key r rs x =
    let rest = permitted key rs x.2 in if eq_text r.key key && x.0 then suc rest else rest

abbrev FillsLive : Text → List Request → Type 0
FillsLive key rs =
    (rl : Limiter) (w : Window)
    → IsLimiter rl
    → lookup key rl.hits ≡ some w
    → All (λ r. r.now ≤ w.reset) rs
    → permitted key rs rl ≡ min (rl.limit - w.count) (made key rs)

-- In a live window a client passes as often as the limit leaves, and no more.
permitted_live : (key : Text) (rs : List Request) → FillsLive key rs
unfolding permitted made
permitted_live key [] rl w u l live = ground arith
permitted_live key (r ∷ rs) rl w u l live = elim (Bool-cases (eq_text r.key key)) [
  | inl e ↦
      ap tallied (allow_own key r rl u w ((eq_text_iff r.key key).0 e) l live.0)
      ∙ if-intro (λ x. tallied x ≡ expected) (leb rl.limit w.count)
          (λ f. ground (arith, permitted_live key rs rl w u l live.1))
          (λ f. ground (arith, spent_live (permitted_live key rs) e))
  | inr e ↦ ground (arith, other (permitted_live key rs) e)
]
  where
    tallied : Bool × ℤ × Limiter → ℕ
    tallied x = tally key r rs x

    expected : ℕ
    expected = min (rl.limit - w.count) (made key (r ∷ rs))

    rl' : Limiter
    rl' = record rl { hits = insert r.key (record w { count = w.count + 1 }) rl.hits }

    spent_live :
        FillsLive key rs
        → eq_text r.key key ≡ true
        → permitted key rs rl' ≡ min (rl.limit - (w.count + 1)) (made key rs)
    spent_live fills e =
        fills rl' (record w { count = w.count + 1 }) (insert-IsUnique r.key _ rl.hits u)
          (ground (arith, lookup-insert r.key key (record w { count = w.count + 1 }) rl.hits))
          live.1

    other :
        FillsLive key rs
        → eq_text r.key key ≡ false
        → permitted key rs (allow r.key r.now r.later rl).2 ≡ min (rl.limit - w.count) (made key rs)
    other fills e =
        fills (allow r.key r.now r.later rl).2 w (allow-IsLimiter key r rl u)
          (allow_other key r rl u w e l live.0) live.1
        ∙ ap (λ n. min (n - w.count) (made key rs)) (allow-limit key r rl u)

-- The requests of one client in the window that its first request opens: exactly as many pass as the
-- limit says, whatever the other clients send in between.
pub window_quota :
    (key : Text) (r : Request) (rs : List Request) (rl : Limiter)
    → IsLimiter rl
    → 0 < rl.limit
    → r.key ≡ key
    → HasPassed r.now (lookup key rl.hits)
    → All (λ q. q.now ≤ r.now + rl.window) rs
    → permitted key (r ∷ rs) rl ≡ min rl.limit (made key (r ∷ rs))
unfolding permitted made open_window
window_quota key r rs rl u some_left own passed live =
    ap (tally key r rs)
      (allow_opens key r rl u (subst (λ k. HasPassed r.now (lookup k rl.hits)) (sym own) passed))
    ∙ ground (arith, eq_text_iff r.key key, after)
  where
    fresh : Window
    fresh = record { count = 1; reset = r.now + rl.window }

    after : permitted key rs (open_window r.key r.now rl) ≡ min (rl.limit - 1) (made key rs)
    after =
        permitted_live key rs (open_window r.key r.now rl) fresh
          (evicted-IsUnique r.now _ (insert-IsUnique r.key fresh rl.hits u))
          (lookup-evicted r.now key fresh _ (insert-IsUnique r.key fresh rl.hits u)
            (ground (arith, lookup-insert r.key key fresh rl.hits, eq_text_iff r.key key))
            (ground arith))
          live
