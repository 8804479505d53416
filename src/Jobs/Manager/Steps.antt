-- ===== src/Jobs/Manager/Steps.antt =====
-- The steps of a running manager: those of the job goroutines, of the handlers, of the contexts and of
-- the janitor. A step whose guard fails changes nothing.
use matrix_runtime.Common.{
  ℕ, ◌+◌, ◌-◌, ◌*◌, ◌≡◌, Bool, true, false, not, ◌&&◌, List, [], ◌∷◌, Option, none, some, ltb,
  if◌then◌else◌, Text, codes,
}
use matrix_runtime.Common.Int.{ℤ, pos_part, is_positive}
use matrix_runtime.Common.Dict.{Dict, lookup, insert, retain}
use matrix_runtime.Config.{Config}
use matrix_runtime.Logs.Bus.{EventStatus, Datum}
use matrix_runtime.Security.Limits.{second}
use matrix_runtime.Jobs.Job.{
  Job, Status, Session, is_terminal, emit, set_status, set_result, set_session,
}
use matrix_runtime.Jobs.Registry.{get, link_sandbox, purge_terminal_before}
use matrix_runtime.Jobs.Manager.{
  Manager, Worker, Phase, Stage, leaving, waiting, running, finishing, releasing, done, Context,
  live, canceled, deadline_exceeded, CreateRequest, create, capacity, update_job, remove_job_dirs,
  stage_job, stage_dirs, next_phase, empty_manager, new_manager,
}

abbrev pub is_waiting : Phase → Bool
is_waiting waiting = true
is_waiting p = false

abbrev pub is_running : Phase → Bool
is_running running = true
is_running p = false

abbrev pub is_releasing : Phase → Bool
is_releasing releasing = true
is_releasing p = false

abbrev pub is_done : Context → Bool
is_done live = false
is_done c = true

-- The first reason to be done stays.
abbrev pub stopped : Context → Context → Context
stopped why live = why
stopped why c = c

unfoldable pub set_worker : Text → Worker → Manager → Manager
set_worker id w m = record m { workers = insert id w m.workers }

unfoldable pub take_slot : Text → Worker → Manager → Manager
unfolding set_worker update_job set_status
take_slot id w m =
    update_job id (set_status Status.running)
      (set_worker id (record w { phase = running }) (record m { used = m.used + 1 }))

-- The `select` of `run` takes a slot.
unfoldable pub acquire : Text → Worker → Manager → Manager
unfolding take_slot
acquire id w m = if is_waiting w.phase && ltb m.used (capacity m) then take_slot id w m else m

unfoldable pub enter : Phase → Text → Worker → Manager → Manager
unfolding set_worker
enter phase id w m = set_worker id (record w { phase = phase }) m

-- The `select` of `run` sees the context done instead and calls `finish`.
unfoldable pub abandon : Text → Worker → Manager → Manager
unfolding enter
abandon id w m =
    if is_waiting w.phase && is_done w.ctx
    then enter (finishing false (leaving (some (codes "cancelled before start")))) id w m
    else m

-- The handler returns with an error or none, and `run` calls `finish`.
unfoldable pub return : Option Text → Text → Worker → Manager → Manager
unfolding enter
return err id w m = if is_running w.phase then enter (finishing true (leaving err)) id w m else m

-- One step of `finish`.
unfoldable pub finish_step : Bool → Stage → Text → Worker → Manager → Manager
unfolding set_worker update_job stage_job stage_dirs next_phase
finish_step slot s id w m = update_job id (stage_job s) (
    set_worker id (record w { phase = next_phase w.ctx slot s })
      (record m { mcp_dirs = stage_dirs s id m.mcp_dirs; job_dirs = stage_dirs s id m.job_dirs }))

abbrev pub advance_at : Phase → Text → Worker → Manager → Manager
unfolding finish_step
advance_at (finishing slot s) id w m = finish_step slot s id w m
advance_at p id w m = m

unfoldable pub advance : Text → Worker → Manager → Manager
unfolding finish_step
advance id w m = advance_at w.phase id w m

unfoldable pub give_slot : Text → Worker → Manager → Manager
unfolding set_worker
give_slot id w m =
    set_worker id (record { phase = done; ctx = stopped canceled w.ctx })
      (record m { used = m.used - 1 })

-- The deferred calls: the slot is given back, then `j.cancel()`.
unfoldable pub release : Text → Worker → Manager → Manager
unfolding give_slot
release id w m = if is_releasing w.phase then give_slot id w m else m

-- What a handler does to its job while it runs.
pub data Effect : Type 0 where
  emitted : Text → EventStatus → Text → List (Text × Datum) → Effect
  resulted : Text → Effect
  attached : Session → Effect

unfoldable pub apply_effect : Effect → Job → Job
unfolding emit set_result set_session
apply_effect (emitted step status message fields) j = emit step status message fields j
apply_effect (resulted r) j = set_result r j
apply_effect (attached s) j = set_session s j

unfoldable pub handle : Effect → Text → Worker → Manager → Manager
unfolding update_job
handle e id w m = if is_running w.phase then update_job id (apply_effect e) m else m

-- `j.cancel()`, or the timer of the context.
unfoldable pub stop_context : Context → Text → Worker → Manager → Manager
unfolding set_worker
stop_context why id w m = set_worker id (record w { ctx = stopped why w.ctx }) m

abbrev pub on_worker : Text → (Worker → Manager → Manager) → Manager → Manager
on_worker id f m = elim (lookup id m.workers) [ none ↦ m | some w ↦ f w m ]

-- The first part of Cancel: false for an unknown job, else the context is stopped.
unfoldable pub cancel_job : Text → Manager → Bool × Manager
unfolding stop_context
cancel_job id m = elim (get id m.registry) [
  | none ↦ (false, m)
  | some j ↦ (true, on_worker id (stop_context canceled id) m)
]

-- The second part: the statuses that Cancel reads, at most 50 of them, and what it reports.
unfoldable pub poll_status : List Status → Status
unfolding is_terminal
poll_status [] = Status.cancelled
poll_status (s ∷ seen) = let rest = poll_status seen in if is_terminal s then s else rest

unfoldable pub stop_all : Context → Dict Worker → Dict Worker
stop_all why [] = []
stop_all why ((id, w) ∷ ws) = (id, record w { ctx = stopped why w.ctx }) ∷ stop_all why ws

-- `m.cancel()`: the base context and every context made from it.
unfoldable pub shutdown : Manager → Manager
unfolding stop_all
shutdown m = record m { base = stopped canceled m.base; workers = stop_all canceled m.workers }

abbrev pub remove_each : List Text → Manager → Manager
remove_each [] m = m
remove_each (id ∷ ids) m = remove_each ids (remove_job_dirs id m)

abbrev pub hours : ℤ → ℕ
hours h = pos_part h * 3600 * second

-- runCleanup of janitor.go at an instant. No retention window reaches back to the first instant.
unfoldable pub sweep_jobs : ℕ → Manager → Manager
sweep_jobs cutoff m =
    let (removed, registry) = purge_terminal_before cutoff m.registry in
    let m' = remove_each removed (record m { registry = registry }) in
    record m' {
      job_dirs = retain (λ name t. ltb cutoff t) m'.job_dirs;
      mcp_dirs = retain (λ name t. ltb cutoff t) m'.mcp_dirs;
    }

unfoldable pub sweep_logs : ℕ → Manager → Manager
sweep_logs cutoff m = record m { log_files = retain (λ path t. not (ltb t cutoff)) m.log_files }

unfoldable pub run_cleanup : ℕ → Manager → Manager
run_cleanup now m =
    let cfg = m.config in
    let swept =
      if is_positive cfg.job_retention_hours
      then sweep_jobs (now - hours cfg.job_retention_hours) m
      else m in
    if is_positive cfg.log_retention_hours
    then sweep_logs (now - hours cfg.log_retention_hours) swept
    else swept

-- Everything that can happen to a manager.
pub data Action : Type 0 where
  creating : CreateRequest → ℕ → Text → Action
  acquiring : Text → Action
  abandoning : Text → Action
  handling : Effect → Text → Action
  returning : Option Text → Text → Action
  advancing : Text → Action
  releasing_slot : Text → Action
  cancelling : Text → Action
  expiring : Text → Action
  linking : Text → Text → Action
  shutting_down : Action
  cleaning : ℕ → Action

unfoldable pub perform : Action → Manager → Manager
perform (creating req now id) m = (create req now id m).1
perform (acquiring id) m = on_worker id (acquire id) m
perform (abandoning id) m = on_worker id (abandon id) m
perform (handling e id) m = on_worker id (handle e id) m
perform (returning err id) m = on_worker id (return err id) m
perform (advancing id) m = on_worker id (advance id) m
perform (releasing_slot id) m = on_worker id (release id) m
perform (cancelling id) m = (cancel_job id m).1
perform (expiring id) m = on_worker id (stop_context deadline_exceeded id) m
perform (linking session_id job_id) m = record m {
  registry = link_sandbox session_id job_id m.registry;
}
perform shutting_down m = shutdown m
perform (cleaning now) m = run_cleanup now m

-- The random id of a new job has not been given to a job before.
abbrev pub IsFresh : Action → Manager → Type 0
IsFresh (creating req now id) m = lookup id m.workers ≡ none
IsFresh a m = Unit

-- The managers that a manager can become.
pub data Run (m : Manager) : Manager → Type 0 where
  start : Run m m
  next : {n : Manager} → Run m n → (a : Action) → IsFresh a n → Run m (perform a n)

-- Those that a new one can become.
abbrev pub Reach : Config → Manager → Type 0
Reach cfg m = (new_manager cfg ≡ some (empty_manager cfg)) × Run (empty_manager cfg) m
