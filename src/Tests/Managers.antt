-- ===== src/Tests/Managers.antt =====
-- A manager that runs one MCP test job.
use matrix_runtime.Common.{
  ◌≡◌, ◌≢◌, ◌≤◌, ◌↔◌, ◌⊎◌, refl, true, false, List, [], ◌∷◌, Option, none, some, Text, arith, codes,
}
use matrix_runtime.Common.Strings.{eq_text}
use matrix_runtime.Common.Int.{pos, pos_part, itoa, write_digits, int64_of}
use matrix_runtime.Common.Dict.{lookup, count_values, insert, modify, retain}
use matrix_runtime.Logs.Bus.{close_bus, new_bus, publish}
use matrix_runtime.Config.{Config}
use matrix_runtime.Config.Env.{from_env}
use matrix_runtime.Security.Limits.{TtlError, check_ttl, clamp_ttl}
use matrix_runtime.Jobs.Job.{Job, Session, close_events, emit, set_status, set_session, set_error}
use matrix_runtime.Jobs.Registry.{get, purge_terminal_before, put, among, new_store}
use matrix_runtime.Jobs.Registry.Purge.{IsWellKeyed, IsTerminal, IsDisposable, purge_exact}
use matrix_runtime.Jobs.Manager.{
  Manager, Worker, done, CreateRequest, created, unknown_type, refused, create, empty_manager,
  new_manager, queued_job, handled_types, start_worker, blank_job, stage_job, stage_dirs,
  next_phase, outcome, outcome_status, tell_outcome, after_recording, remove_job_dirs, update_job,
}
use matrix_runtime.Jobs.Manager.Create.{Starts, create_lem}
use matrix_runtime.Jobs.Manager.Slots.{holds_slot, Reach-slots}
use matrix_runtime.Jobs.Manager.Steps.{
  Action, creating, acquiring, handling, returning, advancing, cleaning, attached, perform, start,
  next, Reach, acquire, return, handle, apply_effect, enter, advance, finish_step, set_worker,
  take_slot,
}
use matrix_runtime.Jobs.Manager.Lifecycle.{Ended, StandsAt}
use matrix_runtime.Jobs.Manager.Lifecycle.Stopping.{cancel_and_finish}
use matrix_runtime.Jobs.Manager.Lifecycle.Endings.{cancel_and_finish_ends}
use matrix_runtime.Jobs.Manager.Lifecycle.Reachable.{Reach-lifecycle}
use matrix_runtime.Jobs.Manager.Lifecycle.Stability.{ended_is_final}
use matrix_runtime.Jobs.Manager.Lifecycle.Sessions.{session_job_never_purged}

abbrev cfg : Config
cfg = record (from_env (λ key. []) [] none) {
  max_concurrent_jobs = pos 1;
  max_ttl_seconds = pos 600;
  job_retention_hours = pos 1;
  log_retention_hours = pos 1;
}

abbrev id : Text
id = codes "job_1"

abbrev request : CreateRequest
request = record { type = codes "mcp.test"; ttl_seconds = pos 60; payload = codes "" }

create_lem_example :
    let (r, m') = create request 1000 id (empty_manager cfg) in
    ((m' ≡ empty_manager cfg)
      × ((r ≡ unknown_type request.type) ⊎ ((e : TtlError) × (r ≡ refused e))))
    ⊎ ((j : Job) × (r ≡ created j) × Starts request 1000 id (empty_manager cfg) j m')
create_lem_example =
    create_lem request 1000 id (empty_manager cfg) (unfold empty_manager in ground arith)

-- The job has a session, and then it completes.
abbrev session : Session
session = record { tools = []; ready = true; closed = false }

unfoldable step : List Action → Manager → Manager
unfolding perform
step [] m = m
step (a ∷ rest) m = step rest (perform a m)

abbrev running_manager : Manager
running_manager =
    step (creating request 1000 id ∷ acquiring id ∷ handling (attached session) id ∷ [])
      (empty_manager cfg)

reaches : Reach cfg running_manager
unfolding lookup new_manager empty_manager perform step
reaches = (
  refl,
  next (next (next start (creating request 1000 id) refl) (acquiring id) tt)
      (handling (attached session) id) tt,
)

abbrev finishes : List Action
finishes =
    advancing id ∷ advancing id ∷ advancing id ∷ advancing id ∷ advancing id ∷ advancing id ∷ []

-- The job of a manager, or a fresh one where there is none.
abbrev job_or_new : Option Job → Job
job_or_new none = queued_job request 1000 id (pos 0)
job_or_new (some j) = j

abbrev running_job : Job
running_job = job_or_new (get id running_manager.registry)

-- How the two managers stand.
running_facts :
    (get id running_manager.registry ≡ some running_job) × (running_job.session ≡ some session)
unfolding step lookup insert modify retain itoa write_digits eq_text close_events emit set_status
    set_session set_error empty_manager create handled_types start_worker queued_job blank_job
    stage_job stage_dirs next_phase outcome outcome_status tell_outcome after_recording
    remove_job_dirs update_job perform acquire return handle apply_effect enter advance finish_step
    set_worker take_slot get put among new_store close_bus new_bus publish check_ttl clamp_ttl
    int64_of
running_facts = (refl, refl)

Reach-slots_example :
    (running_manager.used ≡ count_values holds_slot running_manager.workers)
    × (running_manager.used ≤ pos_part running_manager.config.max_concurrent_jobs)
Reach-slots_example = Reach-slots cfg reaches

Reach-lifecycle_example :
    (w : Worker) × (lookup id running_manager.workers ≡ some w) × StandsAt w.phase running_job
Reach-lifecycle_example = Reach-lifecycle cfg id running_job reaches running_facts.0

session_job_never_purged_example :
    (j : Job) × (get id
        (step
          (returning none id ∷ advancing id ∷ cleaning 999999999999999999 ∷ [])
          running_manager).registry
      ≡ some j)
    × (j.session ≢ none)
unfolding step
session_job_never_purged_example =
    session_job_never_purged cfg id running_job reaches running_facts.0
      (λ e. cc (e, running_facts.1))
      (next (next (next start (returning none id) tt) (advancing id) tt)
        (cleaning 999999999999999999) tt)

-- A job that has completed without a session.
abbrev complete_manager : Manager
complete_manager =
    step (creating request 1000 id ∷ acquiring id ∷ returning none id ∷ finishes)
      (empty_manager cfg)

abbrev complete_job : Job
complete_job = job_or_new (get id complete_manager.registry)

completes : Reach cfg complete_manager
unfolding lookup new_manager empty_manager perform step
completes = (
  refl,
  next
      (next
        (next
          (next
            (next
              (next
                (next (next (next start (creating request 1000 id) refl) (acquiring id) tt)
                  (returning none id) tt)
                (advancing id) tt)
              (advancing id) tt)
            (advancing id) tt)
          (advancing id) tt)
        (advancing id) tt)
      (advancing id) tt,
)

complete_facts :
    (get id complete_manager.registry ≡ some complete_job)
    × IsTerminal complete_job.status
    × IsWellKeyed complete_manager.registry
unfolding step lookup insert modify retain itoa write_digits eq_text close_events emit set_status
    set_session set_error empty_manager create handled_types start_worker queued_job blank_job
    stage_job stage_dirs next_phase outcome outcome_status tell_outcome after_recording
    remove_job_dirs update_job perform acquire return handle apply_effect enter advance finish_step
    set_worker take_slot get put among new_store close_bus new_bus publish check_ttl clamp_ttl
    int64_of
complete_facts = (refl, IsTerminal.complete, record { jobs = (refl, tt); sandboxes = tt })

ended_is_final_example :
    let n = perform (cleaning 999999999999999999) complete_manager in
    (get id n.registry ≡ none)
    ⊎ ((j' : Job) × (get id n.registry ≡ some j')
        × (j'.status ≡ complete_job.status)
        × (complete_job.bus.closed ≡ true → j' ≡ complete_job))
ended_is_final_example =
    ended_is_final cfg id complete_job (cleaning 999999999999999999) completes tt complete_facts.0
      complete_facts.1

purge_exact_example :
    let s' = (purge_terminal_before 2000 complete_manager.registry).1 in
    ((get id s' ≡ some complete_job)
      ↔ ((get id complete_manager.registry ≡ some complete_job) × ¬ IsDisposable 2000 complete_job))
    × ((lookup (codes "sess_1") s'.sandboxes ≡ some id) ↔ (
        (lookup (codes "sess_1") complete_manager.registry.sandboxes ≡ some id)
        × ((k : Job) → get id complete_manager.registry ≡ some k → ¬ IsDisposable 2000 k)))
purge_exact_example =
    purge_exact 2000 complete_manager.registry id (codes "sess_1") complete_job complete_facts.2

-- The running job is cancelled, and its handler returns an error.
cancel_and_finish_ends_example :
    let m = cancel_and_finish id (some (codes "signal: killed")) running_manager in
    (j : Job) × (w : Worker) × (get id m.registry ≡ some j)
    × (lookup id m.workers ≡ some w)
    × (w.phase ≡ done)
    × Ended j
cancel_and_finish_ends_example =
    cancel_and_finish_ends cfg id running_job (some (codes "signal: killed")) reaches
      running_facts.0
