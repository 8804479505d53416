-- ===== src/Jobs/Manager/Lifecycle/Reachable.antt =====
-- Every action keeps the agreement between the jobs and their goroutines, so every run does.
use matrix_runtime.Common.{
  ℕ, ◌≡◌, refl, ◌∙◌, sym, ap, subst, some_inj, not, List, [], ◌∷◌, some, arith, if◌then◌else◌, Text,
  codes, Bool-cases, inl, inr,
}
use matrix_runtime.Common.Strings.{eq_text}
use matrix_runtime.Common.Dict.{Dict, lookup}
use matrix_runtime.Common.Dict.Laws.{lookup-insert, insert-IsUnique, mapped, retained_inv}
use matrix_runtime.Common.Int.{ℤ}
use matrix_runtime.Config.{Config}
use matrix_runtime.Security.Limits.{clamp_ttl}
use matrix_runtime.Logs.Bus.{new_bus, EventStatus, Datum}
use matrix_runtime.Jobs.Job.{Job}
use matrix_runtime.Jobs.Job.Events.{emit-Emitted}
use matrix_runtime.Jobs.Registry.{
  Registry, get, put, link_sandbox, is_purged, purge_terminal_before,
}
use matrix_runtime.Jobs.Registry.Purge.{IsWellKeyed, purge-IsWellKeyed, get-purge}
use matrix_runtime.Jobs.Manager.{
  Manager, Worker, waiting, Context, canceled, deadline_exceeded, CreateRequest, start_worker,
  queued_job, blank_job, empty_manager, remove_job_dirs,
}
use matrix_runtime.Jobs.Manager.Lifecycle.{StandsAt, Agrees, HasLifecycle}
use matrix_runtime.Jobs.Manager.Cases.{create_cases, on_worker_cases, cancel_cases, cleanup_cases}
use matrix_runtime.Jobs.Manager.Steps.{
  Action, creating, acquiring, abandoning, handling, returning, advancing, releasing_slot,
  cancelling, expiring, linking, shutting_down, cleaning, perform, Run, Reach, start, next, acquire,
  abandon, return, advance, release, handle, stop_context, shutdown, stop_all, sweep_jobs,
  sweep_logs, remove_each, stopped,
}
use matrix_runtime.Jobs.Manager.Lifecycle.Preservation.{
  acquire-HasLifecycle, abandon-HasLifecycle, return-HasLifecycle, advance-HasLifecycle,
  release-HasLifecycle, stop_context-HasLifecycle, handle-HasLifecycle,
}

-- A new job and its goroutine.
queued_job-Agrees :
    (req : CreateRequest) (now : ℕ) (id : Text) (ttl : ℤ) (ctx : Context)
    → Agrees (record { phase = waiting; ctx = ctx }) (queued_job req now id ttl)
unfolding queued_job new_bus
queued_job-Agrees req now id ttl ctx =
    let e =
      emit-Emitted (codes "queue") EventStatus.queued (codes "Job queued")
        ((codes "type", Datum.text req.type) ∷ []) (blank_job req now id ttl)
        (record { tracked = tt }) in
    record { stands = (refl, e.closed, refl); bus = e.safe }

module _ (req : CreateRequest) (now : ℕ) (id : Text) (m : Manager) where
  pub new_job : Job
  new_job = queued_job req now id (clamp_ttl req.ttl_seconds m.config.max_ttl_seconds)

  pub started_jobs :
      (k : Text)
      → lookup k (start_worker req now id m).1.registry.jobs
        ≡ (if eq_text id k then some new_job else lookup k m.registry.jobs)
  unfolding start_worker put new_job queued_job
  started_jobs k = lookup-insert id k new_job m.registry.jobs

  started_workers :
      (k : Text)
      → lookup k (start_worker req now id m).1.workers ≡ (
          if eq_text id k
          then some (record { phase = waiting; ctx = m.base })
          else lookup k m.workers)
  unfolding start_worker
  started_workers k = lookup-insert id k _ m.workers

  started-Agrees :
      (h : HasLifecycle m) (k : Text) (j : Job)
      → lookup k (start_worker req now id m).1.registry.jobs ≡ some j
      → (w : Worker) × (lookup k (start_worker req now id m).1.workers ≡ some w) × Agrees w j
  unfolding new_job
  started-Agrees h k j l = elim (Bool-cases (eq_text id k)) [
    | inl same ↦
        let one : new_job ≡ j = some_inj (
          sym (ap (λ b. if b then some new_job else lookup k m.registry.jobs) same)
          ∙ sym (started_jobs k)
          ∙ l) in
        (
          record { phase = waiting; ctx = m.base },
          started_workers k
              ∙ ap
                  (λ b.
                    if b
                    then some (record { phase = waiting; ctx = m.base })
                    else lookup k m.workers)
                  same,
          subst (Agrees (record { phase = waiting; ctx = m.base })) one
              (queued_job-Agrees req now id _ m.base),
        )
    | inr other ↦
        let (w, e, a) = h.agrees k j (
          sym (ap (λ b. if b then some new_job else lookup k m.registry.jobs) other)
          ∙ sym (started_jobs k)
          ∙ l) in
        (
          w,
          started_workers k
              ∙ ap
                  (λ b.
                    if b
                    then some (record { phase = waiting; ctx = m.base })
                    else lookup k m.workers)
                  other
              ∙ e,
          a,
        )
  ]

  pub started-HasLifecycle : HasLifecycle m → HasLifecycle (start_worker req now id m).1
  unfolding start_worker put
  started-HasLifecycle h = record {
    keyed = record {
      jobs = insert-IsUnique _ _ m.registry.jobs h.keyed.jobs;
      sandboxes = h.keyed.sandboxes;
    };
    agrees = started-Agrees h;
  }

pub lookup-stop_all :
    (why : Context) (k : Text) (ws : Dict Worker)
    → lookup k (stop_all why ws) ≡ mapped (λ w. record w { ctx = stopped why w.ctx }) (lookup k ws)
unfolding stop_all lookup
lookup-stop_all why k [] = refl
lookup-stop_all why k ((i, w) ∷ ws) = ground (arith, lookup-stop_all why k ws)

shutdown-HasLifecycle : (m : Manager) → HasLifecycle m → HasLifecycle (shutdown m)
unfolding shutdown
shutdown-HasLifecycle m h = record {
  keyed = h.keyed;
  agrees = λ k j l.
      let (w, e, a) = h.agrees k j l in
      (
        record w { ctx = stopped canceled w.ctx },
        lookup-stop_all canceled k m.workers
            ∙ ap (mapped (λ w. record w { ctx = stopped canceled w.ctx })) e,
        record { stands = a.stands; bus = a.bus },
      );
}

-- Removing directories touches neither the registry nor the goroutines.
pub remove_each-same :
    (ids : List Text) (m : Manager)
    → ((remove_each ids m).registry ≡ m.registry) × ((remove_each ids m).workers ≡ m.workers)
unfolding remove_job_dirs
remove_each-same [] m = (refl, refl)
remove_each-same (id ∷ ids) m = remove_each-same ids (remove_job_dirs id m)

same_lifecycle :
    (m m' : Manager)
    → HasLifecycle m
    → m'.registry ≡ m.registry
    → m'.workers ≡ m.workers
    → HasLifecycle m'
same_lifecycle m m' h r ws = record {
  keyed = subst IsWellKeyed (sym r) h.keyed;
  agrees = λ k j l.
      let (w, e, a) = h.agrees k j (ap (λ (g : Registry). lookup k g.jobs) (sym r) ∙ l) in
      (w, ap (lookup k) ws ∙ e, a);
}

-- The purge only takes jobs away.
purge-HasLifecycle :
    (cutoff : ℕ) (m : Manager)
    → HasLifecycle m
    → HasLifecycle (record m { registry = (purge_terminal_before cutoff m.registry).1 })
unfolding get
purge-HasLifecycle cutoff m h = record {
  keyed = purge-IsWellKeyed cutoff m.registry h.keyed;
  agrees = λ k j l.
      h.agrees k j
        (retained_inv (λ j. not (is_purged cutoff j)) (lookup k m.registry.jobs)
          (sym (get-purge cutoff m.registry k h.keyed) ∙ l)).0;
}

pub sweep_jobs-HasLifecycle :
    (cutoff : ℕ) (m : Manager) → HasLifecycle m → HasLifecycle (sweep_jobs cutoff m)
unfolding sweep_jobs
sweep_jobs-HasLifecycle cutoff m h =
    let (removed, registry) = purge_terminal_before cutoff m.registry in
    let (r, ws) = remove_each-same removed (record m { registry = registry }) in
    same_lifecycle (record m { registry = registry }) _ (purge-HasLifecycle cutoff m h) r ws

sweep_logs-HasLifecycle :
    (cutoff : ℕ) (m : Manager) → HasLifecycle m → HasLifecycle (sweep_logs cutoff m)
unfolding sweep_logs
sweep_logs-HasLifecycle cutoff m h = same_lifecycle m _ h refl refl

link-HasLifecycle :
    (sid id : Text) (m : Manager)
    → HasLifecycle m
    → HasLifecycle (record m { registry = link_sandbox sid id m.registry })
unfolding link_sandbox
link-HasLifecycle sid id m h = record {
  keyed = record {
    jobs = h.keyed.jobs;
    sandboxes = insert-IsUnique sid id m.registry.sandboxes h.keyed.sandboxes;
  };
  agrees = h.agrees;
}

perform-HasLifecycle : (a : Action) (m : Manager) → HasLifecycle m → HasLifecycle (perform a m)
unfolding perform
perform-HasLifecycle (creating req now id) m h =
    create_cases HasLifecycle req now id m h (started-HasLifecycle req now id m h)
perform-HasLifecycle (acquiring id) m h =
    on_worker_cases HasLifecycle id m (acquire id) h (λ w e. acquire-HasLifecycle id w m h e)
perform-HasLifecycle (abandoning id) m h =
    on_worker_cases HasLifecycle id m (abandon id) h (λ w e. abandon-HasLifecycle id w m h e)
perform-HasLifecycle (handling x id) m h =
    on_worker_cases HasLifecycle id m (handle x id) h (λ w e. handle-HasLifecycle id w m h e x)
perform-HasLifecycle (returning err id) m h =
    on_worker_cases HasLifecycle id m (return err id) h (λ w e. return-HasLifecycle id w m h e err)
perform-HasLifecycle (advancing id) m h =
    on_worker_cases HasLifecycle id m (advance id) h (λ w e. advance-HasLifecycle id w m h e)
perform-HasLifecycle (releasing_slot id) m h =
    on_worker_cases HasLifecycle id m (release id) h (λ w e. release-HasLifecycle id w m h e)
perform-HasLifecycle (cancelling id) m h =
    cancel_cases HasLifecycle id m h (λ w e. stop_context-HasLifecycle id w m h e canceled)
perform-HasLifecycle (expiring id) m h =
    on_worker_cases HasLifecycle id m (stop_context deadline_exceeded id) h
      (λ w e. stop_context-HasLifecycle id w m h e deadline_exceeded)
perform-HasLifecycle (linking sid id) m h = link-HasLifecycle sid id m h
perform-HasLifecycle shutting_down m h = shutdown-HasLifecycle m h
perform-HasLifecycle (cleaning now) m h =
    cleanup_cases HasLifecycle now m h sweep_jobs-HasLifecycle sweep_logs-HasLifecycle

pub Run-HasLifecycle : {m n : Manager} → HasLifecycle m → Run m n → HasLifecycle n
Run-HasLifecycle h start = h
Run-HasLifecycle h (next {n} r a f) = perform-HasLifecycle a n (Run-HasLifecycle h r)

pub empty_manager-HasLifecycle : (cfg : Config) → HasLifecycle (empty_manager cfg)
unfolding empty_manager lookup
empty_manager-HasLifecycle cfg = record {
  keyed = record { jobs = tt; sandboxes = tt };
  agrees = λ k j l. absurd (cc l);
}

-- In every manager that a new one can become, each registered job has a goroutine that it agrees
-- with: queued with an open bus and no session before a slot is taken; running with an open bus in the
-- handler; in `finish`, with an open bus, in a status that is not terminal until the outcome is
-- recorded, then in the status of the outcome, and before the bus is closed with a history that ends
-- with the event of that very status; and after `finish` with a closed bus whose history so ends.
pub Reach-lifecycle :
    (cfg : Config) {m : Manager} (id : Text) (j : Job)
    → Reach cfg m
    → get id m.registry ≡ some j
    → (w : Worker) × (lookup id m.workers ≡ some w) × StandsAt w.phase j
unfolding get
Reach-lifecycle cfg id j r l =
    let (w, e, a) = (Run-HasLifecycle (empty_manager-HasLifecycle cfg) r.1).agrees id j l in
    (w, e, a.stands)
