-- ===== src/Jobs/Registry/Purge.antt =====
-- What a purge removes and what it leaves.
use matrix_runtime.Common.{
  fun_ext, ℕ, ◌≡◌, ◌↔◌, ◌≤◌, Bool, true, false, not, [], ◌∷◌, Option, none, some, ltb, arith, Text,
  refl, ◌∙◌, ap, sym, some_inj, Bool-cases, inl, inr,
}
use matrix_runtime.Common.Strings.{eq_text_iff}
use matrix_runtime.Common.Dict.{Dict, lookup, IsUnique}
use matrix_runtime.Common.Dict.Laws.{lookup-retain, retain-IsUnique, retained, retained_inv}
use matrix_runtime.Jobs.Job.{Job, Status, is_terminal}
use matrix_runtime.Jobs.Registry.{
  Registry, get, is_purged, keys_where, among, purge_terminal_before,
}

-- Both maps of the registry hold each key once.
pub record IsWellKeyed (s : Registry) : Type 0 where
  pub jobs : IsUnique s.jobs
  pub sandboxes : IsUnique s.sandboxes

abbrev tested : (Job → Bool) → Option Job → Bool
tested p none = false
tested p (some j) = p j

among-keys_where :
    (p : Job → Bool) (k : Text) (d : Dict Job)
    → IsUnique d
    → among k (keys_where p d) ≡ tested p (lookup k d)
unfolding among keys_where lookup
among-keys_where p k [] u = refl
among-keys_where p k ((i, j) ∷ d) u = ground (arith, eq_text_iff i k, among-keys_where p k d u.1)

-- What each map shows after the purge.
pub get-purge :
    (cutoff : ℕ) (s : Registry) (id : Text)
    → IsWellKeyed s
    → get id (purge_terminal_before cutoff s).1
      ≡ retained (λ j. not (is_purged cutoff j)) (get id s)
unfolding purge_terminal_before get
get-purge cutoff s id w = lookup-retain _ id s.jobs w.jobs

pub sandboxes-purge :
    (cutoff : ℕ) (s : Registry) (sid : Text)
    → IsWellKeyed s
    → lookup sid (purge_terminal_before cutoff s).1.sandboxes
      ≡ retained (λ id. not (tested (is_purged cutoff) (get id s))) (lookup sid s.sandboxes)
unfolding purge_terminal_before get
sandboxes-purge cutoff s sid w =
    lookup-retain _ sid s.sandboxes w.sandboxes
    ∙ ap (λ f. retained f (lookup sid s.sandboxes))
        (fun_ext λ id. ap not (among-keys_where (is_purged cutoff) id s.jobs w.jobs))

pub purge-IsWellKeyed :
    (cutoff : ℕ) (s : Registry) → IsWellKeyed s → IsWellKeyed (purge_terminal_before cutoff s).1
unfolding purge_terminal_before
purge-IsWellKeyed cutoff s w = record {
  jobs = retain-IsUnique _ s.jobs w.jobs;
  sandboxes = retain-IsUnique _ s.sandboxes w.sandboxes;
}

-- The statuses in which a job has ended.
pub data IsTerminal : Status → Type 0 where
  complete : IsTerminal Status.complete
  error : IsTerminal Status.error
  expired : IsTerminal Status.expired
  cancelled : IsTerminal Status.cancelled

is_terminal-IsTerminal : (s : Status) → is_terminal s ≡ true → IsTerminal s
unfolding is_terminal
is_terminal-IsTerminal Status.complete h = complete
is_terminal-IsTerminal Status.error h = error
is_terminal-IsTerminal Status.expired h = expired
is_terminal-IsTerminal Status.cancelled h = cancelled
is_terminal-IsTerminal Status.queued h = absurd (cc h)
is_terminal-IsTerminal Status.running h = absurd (cc h)

pub IsTerminal-is_terminal : {s : Status} → IsTerminal s → is_terminal s ≡ true
unfolding is_terminal
IsTerminal-is_terminal complete = refl
IsTerminal-is_terminal error = refl
IsTerminal-is_terminal expired = refl
IsTerminal-is_terminal cancelled = refl

-- A job that has ended, was created no later than the cutoff and has no session.
pub record IsDisposable (cutoff : ℕ) (j : Job) : Type 0 where
  pub ended : IsTerminal j.status
  pub old : j.created_at ≤ cutoff
  pub sessionless : j.session ≡ none

is_purged-IsDisposable : (cutoff : ℕ) (j : Job) → is_purged cutoff j ≡ true → IsDisposable cutoff j
unfolding is_purged
is_purged-IsDisposable cutoff j h = record {
  ended = is_terminal-IsTerminal j.status (ground arith);
  old = ground arith;
  sessionless = ground arith;
}

IsDisposable-is_purged : (cutoff : ℕ) (j : Job) → IsDisposable cutoff j → is_purged cutoff j ≡ true
unfolding is_purged
IsDisposable-is_purged cutoff j d =
    let e : is_terminal j.status ≡ true = IsTerminal-is_terminal d.ended in
    let o : ltb cutoff j.created_at ≡ false = not_older d.old in rw o (rw e (rw d.sessionless))
  where
    not_older : j.created_at ≤ cutoff → ltb cutoff j.created_at ≡ false
    not_older h = ground arith

kept_iff :
    (cutoff : ℕ) (o : Option Job) (j : Job)
    → (retained (λ j. not (is_purged cutoff j)) o ≡ some j)
      ↔ ((o ≡ some j) × ¬ IsDisposable cutoff j)
kept_iff cutoff o j = (
  λ e.
      let (old, kept) = retained_inv (λ j. not (is_purged cutoff j)) o e in
      (old, λ d. clash kept (IsDisposable-is_purged cutoff j d)),
  λ (e, n).
      ap (retained (λ j. not (is_purged cutoff j))) e ∙ elim (Bool-cases (is_purged cutoff j)) [
        | inl p ↦ absurd (n (is_purged-IsDisposable cutoff j p))
        | inr p ↦ ground (arith, p)
      ],
)
  where
    clash : not (is_purged cutoff j) ≡ true → is_purged cutoff j ≡ true → ⊥
    clash a b = ground (arith, a, b)

link_kept_iff :
    (cutoff : ℕ) (o : Option Job)
    → (tested (is_purged cutoff) o ≡ false) ↔ ((j : Job) → o ≡ some j → ¬ IsDisposable cutoff j)
link_kept_iff cutoff none = (λ e j h. absurd (cc h), λ n. refl)
link_kept_iff cutoff (some j) = (
  λ e k h d. clash e (ap (is_purged cutoff) (some_inj h) ∙ IsDisposable-is_purged cutoff k d),
  λ n. elim (Bool-cases (is_purged cutoff j)) [
    | inl p ↦ absurd (n j refl (is_purged-IsDisposable cutoff j p))
    | inr p ↦ p
  ],
)
  where
    clash : is_purged cutoff j ≡ false → is_purged cutoff j ≡ true → ⊥
    clash a b = ground (arith, a, b)

-- After a purge the jobs are exactly those from before that are not disposable, unchanged, and the sandbox
-- links are exactly those from before but for the links to a disposable job: a link to a job that was not
-- registered stays.
pub purge_exact :
    (cutoff : ℕ) (s : Registry) (id sid : Text) (j : Job)
    → IsWellKeyed s
    → let s' = (purge_terminal_before cutoff s).1 in
      ((get id s' ≡ some j) ↔ ((get id s ≡ some j) × ¬ IsDisposable cutoff j))
      × ((lookup sid s'.sandboxes ≡ some id) ↔ (
          (lookup sid s.sandboxes ≡ some id)
          × ((k : Job) → get id s ≡ some k → ¬ IsDisposable cutoff k)))
purge_exact cutoff s id sid j w =
    let g = get-purge cutoff s id w in
    let l = sandboxes-purge cutoff s sid w in
    let (there, back) = kept_iff cutoff (get id s) j in
    let (keeps, kept) = link_kept_iff cutoff (get id s) in
    (
      (λ e. there (sym g ∙ e), λ p. g ∙ back p),
      (
        λ e.
            let (old, live) =
              retained_inv (λ id. not (tested (is_purged cutoff) (get id s)))
                (lookup sid s.sandboxes) (sym l ∙ e) in
            (old, keeps (ground (arith, live))),
        λ (old, n).
            l
            ∙ ap (retained (λ id. not (tested (is_purged cutoff) (get id s)))) old
            ∙ ground (arith, kept n),
      ),
    )
