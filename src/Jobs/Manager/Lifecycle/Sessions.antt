-- ===== src/Jobs/Manager/Lifecycle/Sessions.antt =====
-- `finish` closes the session of a job and keeps the pointer to it, so the purge, which spares every
-- job with a session, never takes a job away that once had one.
use matrix_runtime.Common.{
  ℕ, ◌≡◌, ◌≢◌, refl, ◌∙◌, sym, ap, Bool, true, false, ◌&&◌, not, Option, none, some, arith, ltb,
  if◌then◌else◌, if-intro, is_some, Text, codes, Bool-cases, inl, inr,
}
use matrix_runtime.Common.Strings.{eq_text, eq_text_iff}
use matrix_runtime.Common.Dict.{lookup, modify}
use matrix_runtime.Common.Dict.Laws.{lookup-modify, mapped, retained}
use matrix_runtime.Jobs.Job.{Job, Status, Session, set_status}
use matrix_runtime.Jobs.Registry.{Registry, get, link_sandbox, is_purged, purge_terminal_before}
use matrix_runtime.Jobs.Registry.Purge.{get-purge}
use matrix_runtime.Config.{Config}
use matrix_runtime.Jobs.Manager.{
  Manager, Worker, Phase, waiting, running, finishing, releasing, done, Stage, leaving, clearing,
  choosing, recording, failing, telling, closing, by_deadline, by_cancel, by_error, by_success,
  stage_job, tell_outcome, deadline_exceeded, CreateRequest, start_worker, capacity, update_job,
  closed_session,
}
use matrix_runtime.Jobs.Manager.Cases.{create_cases, on_worker_cases, cancel_cases, cleanup_cases}
use matrix_runtime.Jobs.Manager.Lifecycle.{HasLifecycle}
use matrix_runtime.Jobs.Manager.Lifecycle.Reachable.{
  remove_each-same, new_job, started_jobs, Run-HasLifecycle, empty_manager-HasLifecycle,
  sweep_jobs-HasLifecycle,
}
use matrix_runtime.Jobs.Manager.Steps.{
  Action, creating, acquiring, abandoning, handling, returning, advancing, releasing_slot,
  cancelling, expiring, linking, shutting_down, cleaning, perform, IsFresh, Run, Reach, start, next,
  acquire, abandon, return, release, handle, stop_context, shutdown, sweep_jobs, sweep_logs,
  take_slot, give_slot, enter, advance, advance_at, finish_step, is_waiting, is_running,
  is_releasing, is_done, Effect, emitted, resulted, attached, apply_effect,
}

abbrev has_session : Job → Bool
has_session j = is_some j.session

stage_job-session :
    (s : Stage) (j : Job) → has_session j ≡ true → has_session (stage_job s j) ≡ true
unfolding stage_job closed_session
stage_job-session (leaving err) j h = closed_still j.session h
  where
    closed_still : (o : Option Session) → is_some o ≡ true → is_some (closed_session o) ≡ true
    closed_still (some s) h = refl
    closed_still none h = h
stage_job-session (clearing err) j h = h
stage_job-session (choosing err) j h = h
stage_job-session (recording o) j h = h
stage_job-session (failing err) j h = h
stage_job-session (telling by_deadline) j h = unfold tell_outcome in h
stage_job-session (telling by_cancel) j h = unfold tell_outcome in h
stage_job-session (telling (by_error err)) j h = unfold tell_outcome in h
stage_job-session (telling by_success) j h = unfold tell_outcome in h
stage_job-session closing j h = h

apply_effect-session :
    (x : Effect) (j : Job) → has_session j ≡ true → has_session (apply_effect x j) ≡ true
unfolding apply_effect
apply_effect-session (emitted step status message fields) j h = h
apply_effect-session (resulted r) j h = h
apply_effect-session (attached s) j h = refl

module _ (id : Text) where
  -- The job is registered and has a session.
  abbrev Attached : Manager → Type 0
  Attached n = (j : Job) × (lookup id n.registry.jobs ≡ some j) × (has_session j ≡ true)

  modify-Attached :
      (k : Text) (f : Job → Job) (m n : Manager)
      → ((j : Job) → has_session j ≡ true → has_session (f j) ≡ true)
      → Attached m
      → n.registry.jobs ≡ modify k f m.registry.jobs
      → Attached n
  modify-Attached k f m n keeps (j, l, s) e = elim (Bool-cases (eq_text k id)) [
    | inl same ↦ (f j, shown true same ∙ ap (mapped f) l, keeps j s)
    | inr other ↦ (j, shown false other ∙ l, s)
  ]
    where
      shown :
          (b : Bool)
          → eq_text k id ≡ b
          → lookup id n.registry.jobs
            ≡ (if b then mapped f (lookup id m.registry.jobs) else lookup id m.registry.jobs)
      shown b q =
          ap (lookup id) e
          ∙ lookup-modify k id f m.registry.jobs
          ∙ ap (λ b. if b then mapped f (lookup id m.registry.jobs) else lookup id m.registry.jobs)
              q

  module _ (m : Manager) (at : Attached m) (k : Text) (w : Worker) where
    acquire-Attached : Attached (acquire k w m)
    unfolding acquire take_slot
    acquire-Attached =
        if-intro Attached (is_waiting w.phase && ltb m.used (capacity m)) {x = take_slot k w m}
          (λ g.
            modify-Attached k (set_status Status.running) m (take_slot k w m)
              (λ j s. unfold set_status in s) at refl)
          (λ g. at)

    abandon-Attached : Attached (abandon k w m)
    unfolding abandon enter
    abandon-Attached =
        let p = finishing false (leaving (some (codes "cancelled before start"))) in
        if-intro Attached (is_waiting w.phase && is_done w.ctx) {x = enter p k w m} (λ g. at)
          (λ g. at)

    return-Attached : (err : Option Text) → Attached (return err k w m)
    unfolding return enter
    return-Attached err =
        if-intro Attached (is_running w.phase) {x = enter (finishing true (leaving err)) k w m}
          (λ g. at) (λ g. at)

    advance-Attached : Attached (advance k w m)
    unfolding advance
    advance-Attached = go w.phase
      where
        go : (p : Phase) → Attached (advance_at p k w m)
        go waiting = at
        go running = at
        go (finishing slot s) =
            unfold finish_step in
            modify-Attached k (stage_job s) m (finish_step slot s k w m) (stage_job-session s) at
              refl
        go releasing = at
        go done = at

    handle-Attached : (x : Effect) → Attached (handle x k w m)
    unfolding handle update_job
    handle-Attached x =
        if-intro Attached (is_running w.phase) {x = update_job k (apply_effect x) m}
          (λ g.
            modify-Attached k (apply_effect x) m (update_job k (apply_effect x) m)
              (apply_effect-session x) at refl)
          (λ g. at)

    release-Attached : Attached (release k w m)
    unfolding release give_slot
    release-Attached =
        if-intro Attached (is_releasing w.phase) {x = give_slot k w m} (λ g. at) (λ g. at)

  -- The id of a new job is fresh, and that of an attached job is not.
  started-Attached :
      (req : CreateRequest) (now : ℕ) (k : Text) (m : Manager)
      → HasLifecycle m
      → Attached m
      → lookup k m.workers ≡ none
      → Attached (start_worker req now k m).1
  started-Attached req now k m h (j, l, s) f = elim (Bool-cases (eq_text k id)) [
    | inl same ↦
        let (v, at, a) = h.agrees id j l in
        absurd (clash (sym at ∙ ap (λ i. lookup i m.workers) (sym ((eq_text_iff k id).0 same)) ∙ f))
    | inr other ↦ (
      j,
      started_jobs req now k m id
          ∙ ap (λ b. if b then some (new_job req now k m) else lookup id m.registry.jobs) other
          ∙ l,
      s,
    )
  ]
    where
      clash : {v : Worker} → some v ≡ none → ⊥
      clash e = cc

  sweep_jobs-Attached :
      (cutoff : ℕ) (n : Manager)
      → HasLifecycle n × Attached n
      → HasLifecycle (sweep_jobs cutoff n) × Attached (sweep_jobs cutoff n)
  sweep_jobs-Attached cutoff n (h, (j, l, s)) = (
    sweep_jobs-HasLifecycle cutoff n h,
    (j, after ∙ ap (retained (λ i. not (is_purged cutoff i))) l ∙ spared, s),
  )
    where
      after :
          lookup id (sweep_jobs cutoff n).registry.jobs
          ≡ retained (λ i. not (is_purged cutoff i)) (lookup id n.registry.jobs)
      after =
          unfold sweep_jobs get in
          ap (λ (r : Registry). lookup id r.jobs)
            (remove_each-same (purge_terminal_before cutoff n.registry).0
              (record n { registry = (purge_terminal_before cutoff n.registry).1 })).0
          ∙ get-purge cutoff n.registry id h.keyed

      spared : retained (λ i. not (is_purged cutoff i)) (some j) ≡ some j
      spared = unfold is_purged in ground arith

  sweep_logs-Attached :
      (cutoff : ℕ) (n : Manager)
      → HasLifecycle n × Attached n
      → HasLifecycle (sweep_logs cutoff n) × Attached (sweep_logs cutoff n)
  unfolding sweep_logs
  sweep_logs-Attached cutoff n (h, at) = (record { keyed = h.keyed; agrees = h.agrees }, at)

  perform-Attached :
      (a : Action) (m : Manager)
      → IsFresh a m
      → HasLifecycle m
      → Attached m
      → Attached (perform a m)
  unfolding perform
  perform-Attached (creating req now k) m f h at =
      create_cases Attached req now k m at (started-Attached req now k m h at f)
  perform-Attached (acquiring k) m f h at =
      on_worker_cases Attached k m (acquire k) at (λ w e. acquire-Attached m at k w)
  perform-Attached (abandoning k) m f h at =
      on_worker_cases Attached k m (abandon k) at (λ w e. abandon-Attached m at k w)
  perform-Attached (handling x k) m f h at =
      on_worker_cases Attached k m (handle x k) at (λ w e. handle-Attached m at k w x)
  perform-Attached (returning err k) m f h at =
      on_worker_cases Attached k m (return err k) at (λ w e. return-Attached m at k w err)
  perform-Attached (advancing k) m f h at =
      on_worker_cases Attached k m (advance k) at (λ w e. advance-Attached m at k w)
  perform-Attached (releasing_slot k) m f h at =
      on_worker_cases Attached k m (release k) at (λ w e. release-Attached m at k w)
  perform-Attached (cancelling k) m f h at =
      cancel_cases Attached k m at (λ w e. unfold stop_context in at)
  perform-Attached (expiring k) m f h at =
      on_worker_cases Attached k m (stop_context deadline_exceeded k) at
        (λ w e. unfold stop_context in at)
  perform-Attached (linking sid k) m f h at = unfold link_sandbox in at
  perform-Attached shutting_down m f h at = unfold shutdown in at
  perform-Attached (cleaning now) m f h at =
      (cleanup_cases (λ n. HasLifecycle n × Attached n) now m (h, at) sweep_jobs-Attached
        sweep_logs-Attached).1

  Run-Attached : {m n : Manager} → HasLifecycle m → Attached m → Run m n → Attached n
  Run-Attached h at start = at
  Run-Attached h at (next {n} r a f) =
      perform-Attached a n f (Run-HasLifecycle h r) (Run-Attached h at r)

-- Once a registered job has a session, no later run of the manager, whatever its sweeps, removes the
-- job: it stays registered, with a session, forever.
pub session_job_never_purged :
    (cfg : Config) {m n : Manager} (id : Text) (j : Job)
    → Reach cfg m
    → get id m.registry ≡ some j
    → j.session ≢ none
    → Run m n
    → (j' : Job) × (get id n.registry ≡ some j') × (j'.session ≢ none)
unfolding get
session_job_never_purged cfg id j r l s run =
    let (j', l', s') =
      Run-Attached id (Run-HasLifecycle (empty_manager-HasLifecycle cfg) r.1)
        (j, l, present j.session s) run in
    (j', l', λ e. absent j'.session s' e)
  where
    present : (o : Option Session) → o ≢ none → is_some o ≡ true
    present none h = absurd (h refl)
    present (some x) h = refl

    absent : (o : Option Session) → is_some o ≡ true → o ≡ none → ⊥
    absent o h e = ground arith
