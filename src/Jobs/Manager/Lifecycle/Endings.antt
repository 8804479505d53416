-- ===== src/Jobs/Manager/Lifecycle/Endings.antt =====
-- internal/jobs/manager.go: every job can be brought to its end.
use matrix_runtime.Common.{
  ℕ, zero, suc, ◌≡◌, refl, ◌∙◌, sym, ap, subst, some_inj, true, is_some, Option, none, some, Text,
}
use matrix_runtime.Common.Dict.{lookup, has}
use matrix_runtime.Config.{Config}
use matrix_runtime.Jobs.Job.{Job}
use matrix_runtime.Jobs.Registry.{get}
use matrix_runtime.Jobs.Manager.{Manager, Worker, done}
use matrix_runtime.Jobs.Manager.Lifecycle.{Ended, StandsAt}
use matrix_runtime.Jobs.Manager.Lifecycle.Reachable.{Reach-lifecycle}
use matrix_runtime.Jobs.Manager.Steps.{
  abandoning, returning, advancing, releasing_slot, cancelling, Run, Reach, next,
}
use matrix_runtime.Jobs.Manager.Lifecycle.Stopping.{
  advance_times, cancel_and_finish, HasStopped, finished-HasStopped,
}

Reach-advance_times : (n : ℕ) (id : Text) {m k : Manager} → Run m k → Run m (advance_times n id k)
unfolding advance_times
Reach-advance_times zero id r = r
Reach-advance_times (suc n) id r = Reach-advance_times n id (next r (advancing id) tt)

Reach-finished :
    (id : Text) (err : Option Text) {m n : Manager} → Run m n → Run m (cancel_and_finish id err n)
unfolding cancel_and_finish
Reach-finished id err r =
    next
      (Reach-advance_times 7 id
        (next (next (next r (cancelling id) tt) (abandoning id) tt) (returning err id) tt))
      (releasing_slot id) tt

has-get :
    (id : Text) (m : Manager)
    → has id m.registry.jobs ≡ true
    → (j : Job) × (get id m.registry ≡ some j)
unfolding get
has-get id m h = go (lookup id m.registry.jobs) h
  where
    go : (o : Option Job) → is_some o ≡ true → (j : Job) × (o ≡ some j)
    go none e = absurd (cc e)
    go (some j) e = (j, refl)

get-has :
    (id : Text) (m : Manager) (j : Job) → get id m.registry ≡ some j → has id m.registry.jobs ≡ true
unfolding get
get-has id m j h = ap is_some h

-- Where the goroutine has ended, so has its job.
stopped-Ended :
    (cfg : Config) (id : Text) {m : Manager}
    → Reach cfg m
    → HasStopped id m
    → (j : Job) × (w : Worker) × (get id m.registry ≡ some j)
      × (lookup id m.workers ≡ some w)
      × (w.phase ≡ done)
      × Ended j
stopped-Ended cfg id {m} r (v, over, stands) =
    let (j, l) = has-get id m stands.job in
    let (w, at, s) = Reach-lifecycle cfg id j r l in
    let one : w ≡ v = some_inj (sym at ∙ stands.worker) in
    (
      j,
      v,
      l,
      stands.worker,
      over,
      subst (λ p. StandsAt p j) (ap (λ (x : Worker). x.phase) one ∙ over) s,
    )

-- In every manager that a new one can become, a registered job is brought to its end by Cancel and the steps
-- that its goroutine then takes, those of `finish` included, whatever its handler returns: the job is still registered, its goroutine has
-- given its slot back and returned, its event bus is closed, and the last event of its history tells of its
-- ended status.
pub cancel_and_finish_ends :
    (cfg : Config) {m : Manager} (id : Text) (j : Job) (err : Option Text)
    → Reach cfg m
    → get id m.registry ≡ some j
    → (j' : Job) × (w : Worker) × (get id (cancel_and_finish id err m).registry ≡ some j')
      × (lookup id (cancel_and_finish id err m).workers ≡ some w)
      × (w.phase ≡ done)
      × Ended j'
cancel_and_finish_ends cfg {m} id j err r l =
    let (w, at, s) = Reach-lifecycle cfg id j r l in
    stopped-Ended cfg id (r.0, Reach-finished id err r.1)
      (finished-HasStopped id err w m (record { worker = at; job = get-has id m j l }))
