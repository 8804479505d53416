-- ===== src/Jobs/Manager/Lifecycle.antt =====
-- The status of a job agrees with its goroutine, and its event bus is open until `finish` is over.
pub mod Endings
pub mod Kept
pub mod Preservation
pub mod Reachable
pub mod Sessions
pub mod Stability
pub mod Stages
pub mod Stopping
use matrix_runtime.Common.{
  ℕ, ◌+◌, ◌-◌, ◌/◌, ◌≡◌, refl, ◌∙◌, sym, ap, subst, some_inj, Bool, true, false, ◌&&◌, not, List,
  [], ◌∷◌, ◌++◌, Option, none, some, arith, ltb, if◌then◌else◌, if-intro, Text, codes, Bool-cases,
  inl, inr,
}
use matrix_runtime.Common.Strings.{eq_text, eq_text_iff}
use matrix_runtime.Common.Dict.{Dict, lookup, insert, modify, IsUnique}
use matrix_runtime.Common.Dict.Laws.{
  lookup-insert, lookup-modify, insert-IsUnique, modify-IsUnique, mapped, mapped_inv, retained,
  retained_inv,
}
use matrix_runtime.Config.{Config}
use matrix_runtime.Common.Int.{itoa_int, quotient}
use matrix_runtime.Security.Limits.{second}
use matrix_runtime.Logs.Bus.{Bus, Event, new_bus, EventStatus}
use matrix_runtime.Logs.Bus.Safety.{IsSafe}
use matrix_runtime.Jobs.Job.{
  Job, Status, Session, is_terminal, emit, close_events, set_status, set_error,
}
use matrix_runtime.Jobs.Job.Events.{emit-Emitted, close_events_lem}
use matrix_runtime.Jobs.Registry.{Registry, get, is_purged, purge_terminal_before}
use matrix_runtime.Jobs.Registry.Purge.{IsWellKeyed, purge-IsWellKeyed, get-purge}
use matrix_runtime.Jobs.Manager.{
  Manager, Worker, Phase, waiting, running, finishing, releasing, done, Context, live, canceled,
  deadline_exceeded, CreateRequest, create, start_worker, queued_job, capacity, empty_manager,
  update_job, Stage, leaving, clearing, choosing, recording, failing, telling, closing, Outcome,
  by_deadline, by_cancel, by_error, by_success, outcome, outcome_status, tell_outcome, stage_job,
  next_phase, after_recording,
}
use matrix_runtime.Jobs.Manager.Cases.{create_cases, on_worker_cases, cancel_cases, cleanup_cases}
use matrix_runtime.Jobs.Manager.Steps.{
  Action, creating, acquiring, abandoning, handling, returning, releasing_slot, cancelling,
  expiring, linking, shutting_down, cleaning, perform, IsFresh, Run, Reach, start, next, acquire,
  abandon, return, release, handle, stop_context, shutdown, stop_all, sweep_jobs, sweep_logs,
  remove_each, take_slot, give_slot, is_waiting, is_running, is_releasing, is_done, stopped, Effect,
  emitted, resulted, attached, apply_effect,
}

-- The event that tells of an ended status.
pub data Announces : Status → EventStatus → Type 0 where
  of_complete : Announces Status.complete EventStatus.complete
  of_error : Announces Status.error EventStatus.error
  of_expired : Announces Status.expired EventStatus.expired
  of_cancelled : Announces Status.cancelled EventStatus.cancelled

-- The last event of the history of a job tells of its status.
pub record IsTold (j : Job) : Type 0 where
  pub past : List Event
  pub last : Event
  pub history : j.bus.history ≡ past ++ last ∷ []
  pub announced : Announces j.status last.status

-- A job that has ended: its bus is closed, and the last event of its history tells of its status.
pub record Ended (j : Job) : Type 0 where
  pub closed : j.bus.closed ≡ true
  pub told : IsTold j

-- What a job shows while its goroutine is in `finish`: its status is that of the outcome once it is
-- recorded, and its bus is open.
abbrev pub StandsIn : Stage → Job → Type 0
StandsIn (recording o) j = (is_terminal j.status ≡ false) × (j.bus.closed ≡ false)
StandsIn (failing err) j = (j.status ≡ Status.error) × (j.bus.closed ≡ false)
StandsIn (telling o) j = (j.status ≡ outcome_status o) × (j.bus.closed ≡ false)
StandsIn closing j = IsTold j × (j.bus.closed ≡ false)
StandsIn s j = (is_terminal j.status ≡ false) × (j.bus.closed ≡ false)

-- What a job shows while its goroutine is in a phase.
abbrev pub StandsAt : Phase → Job → Type 0
StandsAt waiting j = (j.status ≡ Status.queued) × (j.bus.closed ≡ false) × (j.session ≡ none)
StandsAt running j = (j.status ≡ Status.running) × (j.bus.closed ≡ false)
StandsAt (finishing slot s) j = StandsIn s j
StandsAt releasing j = Ended j
StandsAt done j = Ended j

pub record Agrees (w : Worker) (j : Job) : Type 0 where
  pub stands : StandsAt w.phase j
  pub bus : IsSafe j.bus

pub record HasLifecycle (m : Manager) : Type 0 where
  pub keyed : IsWellKeyed m.registry
  pub agrees :
      (id : Text) (j : Job)
      → lookup id m.registry.jobs ≡ some j
      → (w : Worker) × (lookup id m.workers ≡ some w) × Agrees w j

emit-IsTold :
    (step : Text) (status : EventStatus) (message : Text) (j : Job)
    → IsSafe j.bus
    → j.bus.closed ≡ false
    → Announces j.status status
    → (IsTold (emit step status message [] j)
        × ((emit step status message [] j).bus.closed ≡ false))
      × IsSafe (emit step status message [] j).bus
unfolding emit
emit-IsTold step status message j s o a =
    let e = emit-Emitted step status message [] j s in
    ((record { past = _; last = _; history = e.history o; announced = a }, e.closed ∙ o), e.safe)

tell_outcome-IsTold :
    (o : Outcome) (j : Job)
    → IsSafe j.bus
    → (j.status ≡ outcome_status o) × (j.bus.closed ≡ false)
    → (IsTold (tell_outcome o j) × ((tell_outcome o j).bus.closed ≡ false))
      × IsSafe (tell_outcome o j).bus
unfolding tell_outcome outcome_status
tell_outcome-IsTold by_deadline j s (e, o) =
    emit-IsTold _ EventStatus.expired
      (codes "Job expired after " ++ itoa_int (quotient j.ttl second) ++ codes " seconds") j s o
      (subst (λ x. Announces x EventStatus.expired) (sym e) of_expired)
tell_outcome-IsTold by_cancel j s (e, o) =
    emit-IsTold _ EventStatus.cancelled (codes "Job cancelled") j s o
      (subst (λ x. Announces x EventStatus.cancelled) (sym e) of_cancelled)
tell_outcome-IsTold (by_error err) j s (e, o) =
    emit-IsTold _ EventStatus.error err j s o
      (subst (λ x. Announces x EventStatus.error) (sym e) of_error)
tell_outcome-IsTold by_success j s (e, o) =
    emit-IsTold _ EventStatus.complete (codes "Job complete") j s o
      (subst (λ x. Announces x EventStatus.complete) (sym e) of_complete)

close_events-Ended :
    (j : Job) → IsTold j → IsSafe j.bus → Ended (close_events j) × IsSafe (close_events j).bus
close_events-Ended j t s =
    let (safe, closed, history) = close_events_lem j s in
    (
      record {
        closed = closed;
        told = record {
          past = t.past;
          last = t.last;
          history = history ∙ t.history;
          announced = unfold close_events in t.announced;
        };
      },
      safe,
    )

recorded-StandsIn :
    (o : Outcome) (j : Job)
    → j.status ≡ outcome_status o
    → j.bus.closed ≡ false
    → StandsIn (after_recording o) j
unfolding after_recording outcome_status
recorded-StandsIn by_deadline j e c = (e, c)
recorded-StandsIn by_cancel j e c = (e, c)
recorded-StandsIn (by_error err) j e c = (e, c)
recorded-StandsIn by_success j e c = (e, c)

-- A step of `finish` brings the job to what its next step asks of it.
pub stage_job-StandsAt :
    (ctx : Context) (slot : Bool) (s : Stage) (j : Job)
    → IsSafe j.bus
    → StandsIn s j
    → StandsAt (next_phase ctx slot s) (stage_job s j) × IsSafe (stage_job s j).bus
unfolding stage_job next_phase outcome_status
stage_job-StandsAt ctx slot (leaving err) j b a = (a, b)
stage_job-StandsAt ctx slot (clearing err) j b a = (a, b)
stage_job-StandsAt ctx slot (choosing err) j b a = (a, b)
stage_job-StandsAt ctx slot (recording o) j b a =
    (recorded-StandsIn o (set_status (outcome_status o) j) refl a.1, b)
stage_job-StandsAt ctx slot (failing err) j b a = (a, b)
stage_job-StandsAt ctx slot (telling o) j b a = tell_outcome-IsTold o j b a
stage_job-StandsAt ctx true closing j b a = close_events-Ended j a.0 b
stage_job-StandsAt ctx false closing j b a = close_events-Ended j a.0 b

-- One step on one job and its goroutine: everything else is as it was.
module _ (id : Text) (w v : Worker) (f : Job → Job) (m m' : Manager) (h : HasLifecycle m)
    (e : lookup id m.workers ≡ some w) (js : m'.registry.jobs ≡ modify id f m.registry.jobs)
    (ss : m'.registry.sandboxes ≡ m.registry.sandboxes)
    (ws : (k : Text) → lookup k m'.workers ≡ (if eq_text id k then some v else lookup k m.workers))
    (keeps : (j : Job) → Agrees w j → Agrees v (f j)) where
  shown :
      (k : Text)
      → lookup k m'.registry.jobs
        ≡ (if eq_text id k then mapped f (lookup k m.registry.jobs) else lookup k m.registry.jobs)
  shown k = ap (lookup k) js ∙ lookup-modify id k f m.registry.jobs

  own-Agrees :
      (k : Text) (j : Job)
      → eq_text id k ≡ true
      → lookup k m'.registry.jobs ≡ some j
      → (x : Worker) × (lookup k m'.workers ≡ some x) × Agrees x j
  own-Agrees k j same l =
      let (j0, old, new) =
        mapped_inv f (lookup k m.registry.jobs) {v = j} (ground (arith, shown k)) in
      let (w0, at, a) = h.agrees k j0 old in
      let one : w0 ≡ w =
        some_inj (sym at ∙ ap (λ i. lookup i m.workers) (sym ((eq_text_iff id k).0 same)) ∙ e) in
      (v, ground (arith, ws k), subst (Agrees v) new (keeps j0 (subst (λ x. Agrees x j0) one a)))

  other-Agrees :
      (k : Text) (j : Job)
      → eq_text id k ≡ false
      → lookup k m'.registry.jobs ≡ some j
      → (x : Worker) × (lookup k m'.workers ≡ some x) × Agrees x j
  other-Agrees k j other l =
      let (w0, at, a) = h.agrees k j (ground (arith, shown k)) in (w0, ground (arith, ws k), a)

  -- The invariant after a step on one job and its goroutine.
  pub step_lifecycle : HasLifecycle m'
  step_lifecycle = record {
    keyed = record {
      jobs = subst IsUnique (sym js) (modify-IsUnique id f m.registry.jobs h.keyed.jobs);
      sandboxes = subst IsUnique (sym ss) h.keyed.sandboxes;
    };
    agrees = λ k j l. elim (Bool-cases (eq_text id k)) [
      | inl same ↦ own-Agrees k j same l
      | inr other ↦ other-Agrees k j other l
    ];
  }
