-- ===== src/Jobs/Manager/Create.antt =====
-- Create: what is refused, and what a new job is.
use mathlib.Core.List.{Memᴰ}
use matrix_runtime.Common.{
  ◌≢◌, sym, ℕ, ◌+◌, ◌*◌, ◌≤◌, ◌≡◌, refl, ap, true, false, List, [], ◌∷◌, Option, none, some, arith,
  Text, Bool-cases, inl, inr, ◌⊎◌,
}
use matrix_runtime.Common.Strings.{eq_text_iff, eq_text}
use matrix_runtime.Common.Dict.{lookup}
use matrix_runtime.Common.Dict.Laws.{lookup-insert_self, lookup-insert_ne}
use matrix_runtime.Common.Int.{ℤ, pos, pos_part, is_neg, add_int}
use matrix_runtime.Security.Limits.{
  TtlError, check_ttl, clamp_ttl, clamp_ttl_bounds, second, effective_max, most_seconds,
}
use matrix_runtime.Jobs.Job.{Job, Status}
use matrix_runtime.Jobs.Registry.{get, put, among}
use matrix_runtime.Jobs.Manager.{
  Manager, waiting, CreateRequest, created, unknown_type, refused, create, start_worker,
  checked_start, handled_types, queued_job, blank_job,
}

-- What Create has done when it returns a job.
pub record Starts (req : CreateRequest) (now : ℕ) (id : Text) (m : Manager) (j : Job) (m' : Manager)
    : Type 0 where
  pub handled : Memᴰ req.type handled_types
  pub not_negative : is_neg req.ttl_seconds ≡ false
  pub queued : j.status ≡ Status.queued
  pub ttl : ℕ
  pub granted : j.ttl ≡ pos ttl
  pub ttl_least : 1 * second ≤ ttl
  pub ttl_most : ttl ≤ pos_part (effective_max m.config.max_ttl_seconds) * second
  pub expiry : j.expires_at ≡ pos (now + ttl)
  pub registered : get id m'.registry ≡ some j
  pub others : (k : Text) → k ≢ id → get k m'.registry ≡ get k m.registry
  pub waits : lookup id m'.workers ≡ some (record { phase = waiting; ctx = m.base })

among-Memᴰ : (t : Text) (names : List Text) → among t names ≡ true → Memᴰ t names
unfolding among
among-Memᴰ t [] h = absurd (cc h)
among-Memᴰ t (n ∷ names) h = elim (Bool-cases (eq_text n t)) [
  | inl e ↦ Memᴰ.head (sym ((eq_text_iff n t).0 e))
  | inr e ↦ Memᴰ.tail (among-Memᴰ t names (ground arith))
]

check_ttl-not_negative : (r max : ℤ) → check_ttl r max ≡ none → is_neg r ≡ false
unfolding check_ttl
check_ttl-not_negative r max h = ground arith

module _ (req : CreateRequest) (now : ℕ) (id : Text) (m : Manager) where
  start_worker-Starts :
      Memᴰ req.type handled_types
      → check_ttl req.ttl_seconds m.config.max_ttl_seconds ≡ none
      → pos_part (effective_max m.config.max_ttl_seconds) ≤ most_seconds
      → Starts req now id m
          (queued_job req now id (clamp_ttl req.ttl_seconds m.config.max_ttl_seconds))
          (start_worker req now id m).1
  unfolding start_worker put get queued_job blank_job
  start_worker-Starts h c b =
      let (ttl, granted, least, most) =
        clamp_ttl_bounds req.ttl_seconds m.config.max_ttl_seconds b in
      record {
        handled = h;
        not_negative = check_ttl-not_negative _ _ c;
        queued = refl;
        ttl = ttl;
        granted = granted;
        ttl_least = least;
        ttl_most = most;
        expiry = ap (add_int now) granted;
        registered = lookup-insert_self id _ m.registry.jobs;
        others = λ k n. lookup-insert_ne id k _ m.registry.jobs (λ e. n (sym e));
        waits = lookup-insert_self id _ m.workers;
      }

  -- Where the configured maximum is at most 9223372036 seconds, Create refuses a request, with an error that names its type or its ttl, and changes nothing, or
  -- it returns a queued job whose type has a handler and whose ttl was not negative: its time to live
  -- is between one second and the configured maximum, it expires that long after its creation, it is
  -- registered under its id with a waiting goroutine, and every other job is as it was.
  pub create_lem :
      pos_part (effective_max m.config.max_ttl_seconds) ≤ most_seconds
      → let (r, m') = create req now id m in
        ((m' ≡ m) × ((r ≡ unknown_type req.type) ⊎ ((e : TtlError) × (r ≡ refused e))))
        ⊎ ((j : Job) × (r ≡ created j) × Starts req now id m j m')
  unfolding create start_worker
  create_lem bound = elim (Bool-cases (among req.type handled_types)) [
    | inr e ↦ rw e (inl (refl, inl refl))
    | inl e ↦ rw e (checked e (check_ttl req.ttl_seconds m.config.max_ttl_seconds) refl)
  ]
    where
      checked :
          among req.type handled_types ≡ true
          → (o : Option TtlError) → check_ttl req.ttl_seconds m.config.max_ttl_seconds ≡ o
          → let (r, m') = checked_start o req now id m in
            ((m' ≡ m) × ((r ≡ unknown_type req.type) ⊎ ((e : TtlError) × (r ≡ refused e))))
            ⊎ ((j : Job) × (r ≡ created j) × Starts req now id m j m')
      checked e none c = inr (_, refl, start_worker-Starts (among-Memᴰ _ _ e) c bound)
      checked e (some x) c = inl (refl, inr (x, refl))
