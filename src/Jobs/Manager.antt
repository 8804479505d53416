-- ===== src/Jobs/Manager.antt =====
-- internal/jobs/manager.go: creation, the goroutine of each job and its slot, termination. The clock
-- and the random ids are arguments. Create is one step, and so is the taking of a slot with the status that
-- follows it; `finish` is a sequence of steps.
pub mod Steps
pub mod Cases
pub mod Create
pub mod Slots
pub mod Listing
pub mod Lifecycle
use matrix_runtime.Common.{
  ℕ, suc, ◌+◌, ◌-◌, ◌*◌, ◌/◌, Bool, true, false, not, ◌&&◌, List, [], ◌∷◌, ◌++◌, Option, none, some,
  ltb, ◌==◌, if◌then◌else◌, Text, codes,
}
use matrix_runtime.Common.Strings.{eq_text}
use matrix_runtime.Common.Int.{ℤ, is_neg, pos_part, itoa_int, quotient, minus, add_int}
use matrix_runtime.Common.Dict.{Dict, lookup, insert, modify, retain}
use matrix_runtime.Config.{Config}
use matrix_runtime.Logs.Bus
use matrix_runtime.Logs.Bus.{EventStatus, Datum, new_bus}
use matrix_runtime.Security.Limits.{TtlError, check_ttl, clamp_ttl, second}
use matrix_runtime.Jobs.Job.{
  Job, Status, Session, close_session, emit, close_events, set_status, set_error,
}
use matrix_runtime.Jobs.Registry
use matrix_runtime.Jobs.Registry.{Registry, new_store, put, among}

-- The job types with a handler, as NewManager registers them.
unfoldable pub handled_types : List Text
handled_types =
    codes "mcp.test"
    ∷ codes "mcp.run"
    ∷ codes "model.inspect"
    ∷ codes "model.pull"
    ∷ codes "model.attach"
    ∷ codes "model.preload"
    ∷ codes "agent.run"
    ∷ codes "tool.run"
    ∷ codes "matrixshell.install"
    ∷ []

-- The cases of the `switch` of `finish`.
pub data Outcome : Type 0 where
  by_deadline by_cancel : Outcome
  by_error : Text → Outcome
  by_success : Outcome

-- What `finish` does next, with the error that it was called with: `s.Close()`, RemoveJob, the reading
-- of the context, setStatus, setError, Emit, `Bus().Close()`.
pub data Stage : Type 0 where
  leaving clearing choosing : Option Text → Stage
  recording : Outcome → Stage
  failing : Text → Stage
  telling : Outcome → Stage
  closing : Stage

-- Where the goroutine of a job stands: before the slot, in the handler, in `finish`, with or without a
-- slot, after `finish` with the slot still held, and at its end.
pub data Phase : Type 0 where
  waiting running : Phase
  finishing : Bool → Stage → Phase
  releasing done : Phase

-- `ctx.Err()`: the first of cancellation and deadline stays.
pub data Context : Type 0 where
  live canceled deadline_exceeded : Context

pub record Worker : Type 0 where
  pub phase : Phase
  pub ctx : Context

-- `used` counts the elements of the channel `sem`. A directory is known by its name and its time of
-- modification.
pub record Manager : Type 0 where
  pub config : Config
  pub registry : Registry
  pub workers : Dict Worker
  pub used : ℕ
  pub base : Context
  pub mcp_dirs : Dict ℕ
  pub job_dirs : Dict ℕ
  pub log_files : Dict ℕ

unfoldable pub empty_manager : Config → Manager
unfolding new_store
empty_manager cfg = record {
  config = cfg;
  registry = new_store;
  workers = [];
  used = 0;
  base = live;
  mcp_dirs = [];
  job_dirs = [];
  log_files = [];
}

-- NewManager, with none for the panic of `make`.
unfoldable pub new_manager : Config → Option Manager
unfolding empty_manager
new_manager cfg = if is_neg cfg.max_concurrent_jobs then none else some (empty_manager cfg)

abbrev pub capacity : Manager → ℕ
capacity m = pos_part m.config.max_concurrent_jobs

pub record CreateRequest : Type 0 where
  pub type : Text
  pub ttl_seconds : ℤ
  pub payload : Text

pub data CreateResult : Type 0 where
  created : Job → CreateResult
  unknown_type : Text → CreateResult
  refused : TtlError → CreateResult

-- The struct literal of Create, before anything is emitted.
unfoldable pub blank_job : CreateRequest → ℕ → Text → ℤ → Job
unfolding new_bus minus
blank_job req now id ttl = record {
  id = id;
  type = req.type;
  payload = req.payload;
  created_at = now;
  expires_at = add_int now ttl;
  ttl = ttl;
  status = Status.queued;
  result = none;
  err_msg = [];
  session = none;
  bus = new_bus;
}

unfoldable pub queued_job : CreateRequest → ℕ → Text → ℤ → Job
unfolding emit blank_job
queued_job req now id ttl =
    emit (codes "queue") EventStatus.queued (codes "Job queued")
      ((codes "type", Datum.text req.type) ∷ []) (blank_job req now id ttl)

-- A context made from the base context is done when that is.
unfoldable pub start_worker : CreateRequest → ℕ → Text → Manager → CreateResult × Manager
start_worker req now id m =
    let j = queued_job req now id (clamp_ttl req.ttl_seconds m.config.max_ttl_seconds) in
    (
      created j,
      record m {
        registry = put j m.registry;
        workers = insert id (record { phase = waiting; ctx = m.base }) m.workers;
      },
    )

abbrev pub checked_start :
    Option TtlError → CreateRequest → ℕ → Text → Manager → CreateResult × Manager
checked_start (some e) req now id m = (refused e, m)
checked_start none req now id m = start_worker req now id m

unfoldable pub create : CreateRequest → ℕ → Text → Manager → CreateResult × Manager
create req now id m =
    if among req.type handled_types
    then checked_start (check_ttl req.ttl_seconds m.config.max_ttl_seconds) req now id m
    else (unknown_type req.type, m)

unfoldable pub update_job : Text → (Job → Job) → Manager → Manager
update_job id f m = record m { registry = record m.registry { jobs = modify id f m.registry.jobs } }

abbrev without_dir : Text → Dict ℕ → Dict ℕ
without_dir id = retain (λ name t. not (eq_text name id))

-- Layout.RemoveJob
unfoldable pub remove_job_dirs : Text → Manager → Manager
remove_job_dirs id m = record m {
  mcp_dirs = without_dir id m.mcp_dirs;
  job_dirs = without_dir id m.job_dirs;
}

abbrev pub closed_session : Option Session → Option Session
unfolding close_session
closed_session none = none
closed_session (some s) = some (close_session s)

-- The case that `finish` takes, on the context and the error.
unfoldable pub outcome : Context → Option Text → Outcome
outcome deadline_exceeded err = by_deadline
outcome canceled err = by_cancel
outcome live (some err) = by_error err
outcome live none = by_success

unfoldable pub outcome_status : Outcome → Status
outcome_status by_deadline = Status.expired
outcome_status by_cancel = Status.cancelled
outcome_status (by_error err) = Status.error
outcome_status by_success = Status.complete

unfoldable pub tell_outcome : Outcome → Job → Job
unfolding emit itoa_int quotient
tell_outcome by_deadline j =
    emit (codes "expire") EventStatus.expired
      (codes "Job expired after " ++ itoa_int (quotient j.ttl second) ++ codes " seconds") [] j
tell_outcome by_cancel j = emit (codes "cancel") EventStatus.cancelled (codes "Job cancelled") [] j
tell_outcome (by_error err) j = emit (codes "error") EventStatus.error err [] j
tell_outcome by_success j = emit (codes "complete") EventStatus.complete (codes "Job complete") [] j

-- A step of `finish` on the job.
unfoldable pub stage_job : Stage → Job → Job
unfolding set_status set_error tell_outcome close_events
stage_job (leaving err) j = record j { session = closed_session j.session }
stage_job (recording o) j = set_status (outcome_status o) j
stage_job (failing err) j = set_error err j
stage_job (telling o) j = tell_outcome o j
stage_job closing j = close_events j
stage_job (clearing err) j = j
stage_job (choosing err) j = j

-- A step of `finish` on the directories.
unfoldable pub stage_dirs : Stage → Text → Dict ℕ → Dict ℕ
stage_dirs (clearing err) id dirs = without_dir id dirs
stage_dirs s id dirs = dirs

unfoldable pub after_recording : Outcome → Stage
after_recording (by_error err) = failing err
after_recording o = telling o

-- What follows a step of `finish`: its next step, or, after the last, the deferred calls where a slot is
-- held.
unfoldable pub next_phase : Context → Bool → Stage → Phase
unfolding outcome after_recording
next_phase ctx slot (leaving err) = finishing slot (clearing err)
next_phase ctx slot (clearing err) = finishing slot (choosing err)
next_phase ctx slot (choosing err) = finishing slot (recording (outcome ctx err))
next_phase ctx slot (recording o) = finishing slot (after_recording o)
next_phase ctx slot (failing err) = finishing slot (telling (by_error err))
next_phase ctx slot (telling o) = finishing slot closing
next_phase ctx true closing = releasing
next_phase ctx false closing = done
