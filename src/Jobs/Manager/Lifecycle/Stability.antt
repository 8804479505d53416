-- ===== src/Jobs/Manager/Lifecycle/Stability.antt =====
-- What never changes: a terminal status, and a job whose event bus is closed.
use matrix_runtime.Common.{◌≡◌, true, ◌⊎◌, inl, inr, none, some, Text}
use matrix_runtime.Common.Dict.{lookup}
use matrix_runtime.Config.{Config}
use matrix_runtime.Jobs.Job.{Job, is_terminal}
use matrix_runtime.Jobs.Registry.{get, link_sandbox}
use matrix_runtime.Jobs.Registry.Purge.{IsTerminal, IsTerminal-is_terminal}
use matrix_runtime.Jobs.Manager.{Manager, deadline_exceeded}
use matrix_runtime.Jobs.Manager.Cases.{create_cases, on_worker_cases, cancel_cases, cleanup_cases}
use matrix_runtime.Jobs.Manager.Lifecycle.{HasLifecycle}
use matrix_runtime.Jobs.Manager.Lifecycle.Reachable.{Run-HasLifecycle, empty_manager-HasLifecycle}
use matrix_runtime.Jobs.Manager.Lifecycle.Kept.{
  Kept, acquire-Kept, abandon-Kept, return-Kept, advance-Kept, handle-Kept, release-Kept,
  started-Kept, sweep_jobs-Kept, sweep_logs-Kept, held_now,
}
use matrix_runtime.Jobs.Manager.Steps.{
  Action, creating, acquiring, abandoning, handling, returning, advancing, releasing_slot,
  cancelling, expiring, linking, shutting_down, cleaning, perform, IsFresh, Reach, acquire, abandon,
  return, release, handle, stop_context, shutdown, advance,
}

module _ (id : Text) (j : Job) where
  perform-Kept :
      (a : Action) (m : Manager)
      → IsFresh a m
      → HasLifecycle m
      → lookup id m.registry.jobs ≡ some j
      → is_terminal j.status ≡ true
      → Kept id j (perform a m)
  unfolding perform
  perform-Kept (creating req now k) m f h l t =
      create_cases (Kept id j) req now k m (held_now id j m h l t)
        (started-Kept id j m h l t req now k f)
  perform-Kept (acquiring k) m f h l t =
      on_worker_cases (Kept id j) k m (acquire k) (held_now id j m h l t)
        (acquire-Kept id j m h l t k)
  perform-Kept (abandoning k) m f h l t =
      on_worker_cases (Kept id j) k m (abandon k) (held_now id j m h l t)
        (λ w e. abandon-Kept id j m h l t k w)
  perform-Kept (handling x k) m f h l t =
      on_worker_cases (Kept id j) k m (handle x k) (held_now id j m h l t)
        (handle-Kept id j m h l t x k)
  perform-Kept (returning err k) m f h l t =
      on_worker_cases (Kept id j) k m (return err k) (held_now id j m h l t)
        (λ w e. return-Kept id j m h l t err k w)
  perform-Kept (advancing k) m f h l t =
      on_worker_cases (Kept id j) k m (advance k) (held_now id j m h l t)
        (advance-Kept id j m h l t k)
  perform-Kept (releasing_slot k) m f h l t =
      on_worker_cases (Kept id j) k m (release k) (held_now id j m h l t)
        (release-Kept id j m h l t k)
  perform-Kept (cancelling k) m f h l t =
      cancel_cases (Kept id j) k m (held_now id j m h l t)
        (λ w e. unfold stop_context in held_now id j m h l t)
  perform-Kept (expiring k) m f h l t =
      on_worker_cases (Kept id j) k m (stop_context deadline_exceeded k) (held_now id j m h l t)
        (λ w e. unfold stop_context in held_now id j m h l t)
  perform-Kept (linking sid k) m f h l t = unfold link_sandbox in held_now id j m h l t
  perform-Kept shutting_down m f h l t = unfold shutdown in held_now id j m h l t
  perform-Kept (cleaning now) m f h l t =
      (cleanup_cases (λ n. HasLifecycle n × Kept id j n) now m (h, (held_now id j m h l t))
        (sweep_jobs-Kept id j) (sweep_logs-Kept id j)).1

-- In every manager that a new one can become, a terminal status is final: the next action, a step of
-- `finish` or of another goroutine included, removes the job or leaves it with that status, and, where
-- the event bus of the job is closed already, removes it or leaves it exactly as it is.
pub ended_is_final :
    (cfg : Config) {m : Manager} (id : Text) (j : Job) (a : Action)
    → Reach cfg m
    → IsFresh a m
    → get id m.registry ≡ some j
    → IsTerminal j.status
    → (get id (perform a m).registry ≡ none)
      ⊎ ((j' : Job) × (get id (perform a m).registry ≡ some j')
          × (j'.status ≡ j.status)
          × (j.bus.closed ≡ true → j' ≡ j))
unfolding get
ended_is_final cfg {m} id j a r f l t =
    elim (perform-Kept id j a m f (Run-HasLifecycle (empty_manager-HasLifecycle cfg) r.1) l
      (IsTerminal-is_terminal t)) [
        | inl gone ↦ inl gone
        | inr (j', at, follows) ↦ inr (j', at, follows.0, follows.1)
      ]
