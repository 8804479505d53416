-- ===== src/Jobs/Manager/Lifecycle/Stopping.antt =====
-- internal/jobs/manager.go: Cancel, and what the goroutine of a job then does.
use matrix_runtime.Common.{
  ℕ, zero, suc, ◌≡◌, refl, ◌∙◌, sym, ap, subst, Bool, true, false, is_some, Option, none, some,
  arith, Text, codes,
}
use matrix_runtime.Common.Strings.{eq_text_iff}
use matrix_runtime.Common.Dict.{lookup, has, insert, modify}
use matrix_runtime.Common.Dict.Laws.{lookup-insert_self, lookup-modify}
use matrix_runtime.Jobs.Job.{Job}
use matrix_runtime.Jobs.Registry.{get}
use matrix_runtime.Jobs.Manager.{
  Manager, Worker, Phase, waiting, running, finishing, releasing, done, leaving, stage_job,
  next_phase, Context, live, canceled, deadline_exceeded,
}
use matrix_runtime.Jobs.Manager.Lifecycle.Stages.{IsLeft, next_phase-IsLeft, some_left, all_left}
use matrix_runtime.Jobs.Manager.Steps.{
  abandoning, returning, advancing, releasing_slot, cancelling, perform, on_worker, abandon, return,
  release, stop_context, cancel_job, stopped, is_done, enter, advance, finish_step, give_slot,
}

-- The goroutine takes some steps of `finish`, of which there are seven at most.
unfoldable pub advance_times : ℕ → Text → Manager → Manager
unfolding perform
advance_times zero id m = m
advance_times (suc n) id m = advance_times n id (perform (advancing id) m)

-- Cancel, and then the goroutine: it gives up before the start, or its handler returns, it runs through
-- `finish`, and it gives its slot back. The steps that its phase does not allow change nothing.
unfoldable pub cancel_and_finish : Text → Option Text → Manager → Manager
unfolding perform advance_times
cancel_and_finish id err m = perform (releasing_slot id) (
    advance_times 7 id
      (perform (returning err id) (perform (abandoning id) (perform (cancelling id) m))))

module _ (id : Text) where
  -- The goroutine of the job, and that the job is registered.
  pub record Stands (w : Worker) (m : Manager) : Type 0 where
    pub worker : lookup id m.workers ≡ some w
    pub job : has id m.registry.jobs ≡ true

  -- A step on the goroutine and its job.
  step-Stands :
      (w v : Worker) (f : Job → Job) (m m' : Manager)
      → Stands w m
      → m'.workers ≡ insert id v m.workers
      → m'.registry.jobs ≡ modify id f m.registry.jobs
      → Stands v m'
  step-Stands w v f m m' h ws js = record {
    worker = ap (lookup id) ws ∙ lookup-insert_self id v m.workers;
    job =
        ap (has id) js
        ∙ ground (arith, lookup-modify id id f m.registry.jobs, h.job, eq_text_iff id id);
  }

  -- The same with the job as it was.
  worker-Stands :
      (w v : Worker) (m m' : Manager)
      → Stands w m
      → m'.workers ≡ insert id v m.workers
      → m'.registry.jobs ≡ m.registry.jobs
      → Stands v m'
  worker-Stands w v m m' h ws js = record {
    worker = ap (lookup id) ws ∙ lookup-insert_self id v m.workers;
    job = ap (has id) js ∙ h.job;
  }

  on_worker_found :
      (f : Worker → Manager → Manager) {w v : Worker} {m : Manager}
      → Stands w m
      → Stands v (f w m)
      → Stands v (on_worker id f m)
  on_worker_found f {w} {v} {m} h s =
      subst (Stands v)
        (sym (ap (λ o. elim o as (λ o. Manager) [ none ↦ m | some x ↦ f x m ]) h.worker)) s

  cancelled-Stands :
      (w : Worker) (m : Manager)
      → Stands w m
      → Stands (record w { ctx = stopped canceled w.ctx }) (perform (cancelling id) m)
  unfolding perform cancel_job get stop_context
  cancelled-Stands w m h = go (lookup id m.registry.jobs) h.job
    where
      v : Worker
      v = record w { ctx = stopped canceled w.ctx }

      go :
          (o : Option Job)
          → is_some o ≡ true
          → Stands v
              (elim o as (λ x. Bool × Manager) [
                | none ↦ (false, m)
                | some j ↦ (true, on_worker id (stop_context canceled id) m)
              ]).1
      go none e = absurd (cc e)
      go (some j) e =
          on_worker_found (stop_context canceled id) h (worker-Stands w v m _ h refl refl)

  abbrev after_abandoning : Phase → Phase
  after_abandoning waiting = finishing false (leaving (some (codes "cancelled before start")))
  after_abandoning p = p

  abandoned-Stands :
      (p : Phase) (c : Context) (m : Manager)
      → is_done c ≡ true
      → Stands (record { phase = p; ctx = c }) m
      → Stands (record { phase = after_abandoning p; ctx = c }) (perform (abandoning id) m)
  unfolding perform
  abandoned-Stands p c m d h = on_worker_found (abandon id) h (go p d h)
    where
      go :
          (p : Phase)
          → is_done c ≡ true
          → Stands (record { phase = p; ctx = c }) m
          → Stands
              (record { phase = after_abandoning p; ctx = c })
              (abandon id (record { phase = p; ctx = c }) m)
      go waiting d h =
          unfold abandon enter in
          rw d (
            worker-Stands (record { phase = waiting; ctx = c })
              (record { phase = after_abandoning waiting; ctx = c }) m _ h refl refl)
      go running d h = unfold abandon in h
      go (finishing slot s) d h = unfold abandon in h
      go releasing d h = unfold abandon in h
      go done d h = unfold abandon in h

  abbrev after_returning : Option Text → Phase → Phase
  after_returning err running = finishing true (leaving err)
  after_returning err p = p

  returned-Stands :
      (err : Option Text) (p : Phase) (c : Context) (m : Manager)
      → Stands (record { phase = p; ctx = c }) m
      → Stands (record { phase = after_returning err p; ctx = c }) (perform (returning err id) m)
  unfolding perform
  returned-Stands err p c m h = on_worker_found (return err id) h (go p h)
    where
      go :
          (p : Phase)
          → Stands (record { phase = p; ctx = c }) m
          → Stands
              (record { phase = after_returning err p; ctx = c })
              (return err id (record { phase = p; ctx = c }) m)
      go waiting h = unfold return in h
      go running h =
          unfold return enter in
          worker-Stands (record { phase = running; ctx = c })
            (record { phase = finishing true (leaving err); ctx = c }) m _ h refl refl
      go (finishing slot s) h = unfold return in h
      go releasing h = unfold return in h
      go done h = unfold return in h

  -- The goroutine in a phase of `finish` or past it.
  abbrev StandsWithin : ℕ → Context → Manager → Type 0
  StandsWithin n c m = (p : Phase) × IsLeft n p × Stands (record { phase = p; ctx = c }) m

  advanced-Stands :
      (n : ℕ) (c : Context) (m : Manager)
      → StandsWithin (suc n) c m
      → StandsWithin n c (perform (advancing id) m)
  unfolding perform advance
  advanced-Stands n c m (finishing slot s, b, h) = (
    next_phase c slot s,
    next_phase-IsLeft n c slot s b,
    on_worker_found (advance id) h (
        unfold finish_step in
        step-Stands (record { phase = finishing slot s; ctx = c })
          (record { phase = next_phase c slot s; ctx = c }) (stage_job s) m _ h refl refl),
  )
  advanced-Stands n c m (waiting, b, h) = absurd b
  advanced-Stands n c m (running, b, h) = absurd b
  advanced-Stands n c m (releasing, b, h) = (releasing, tt, on_worker_found (advance id) h h)
  advanced-Stands n c m (done, b, h) = (done, tt, on_worker_found (advance id) h h)

  advance_times-Stands :
      (n : ℕ) (c : Context) (m : Manager)
      → StandsWithin n c m
      → StandsWithin 0 c (advance_times n id m)
  unfolding advance_times
  advance_times-Stands zero c m h = h
  advance_times-Stands (suc n) c m h =
      advance_times-Stands n c (perform (advancing id) m) (advanced-Stands n c m h)

  -- The goroutine has ended.
  abbrev pub HasStopped : Manager → Type 0
  HasStopped m = (w : Worker) × (w.phase ≡ done) × Stands w m

  released-HasStopped :
      (c : Context) (m : Manager)
      → Stands (record { phase = releasing; ctx = c }) m
      → HasStopped (perform (releasing_slot id) m)
  unfolding perform release give_slot
  released-HasStopped c m h =
      let v : Worker = record { phase = done; ctx = stopped canceled c } in
      (
        v,
        refl,
        on_worker_found (release id) h
            (worker-Stands (record { phase = releasing; ctx = c }) v m _ h refl refl),
      )

  done-HasStopped :
      (c : Context) (m : Manager)
      → Stands (record { phase = done; ctx = c }) m
      → HasStopped (perform (releasing_slot id) m)
  unfolding perform release
  done-HasStopped c m h = (record { phase = done; ctx = c }, refl, on_worker_found (release id) h h)

  stopped_at :
      (c : Context) (m : Manager) → StandsWithin 0 c m → HasStopped (perform (releasing_slot id) m)
  stopped_at c m (releasing, b, h) = released-HasStopped c m h
  stopped_at c m (done, b, h) = done-HasStopped c m h
  stopped_at c m (waiting, b, h) = absurd b
  stopped_at c m (running, b, h) = absurd b
  stopped_at c m (finishing slot s, b, h) = absurd (some_left s b)

  pub finished-HasStopped :
      (err : Option Text) (w : Worker) (m : Manager)
      → Stands w m
      → HasStopped (cancel_and_finish id err m)
  unfolding cancel_and_finish
  finished-HasStopped err w m h = stopped_at c _ (
      advance_times-Stands 7 c _ (
        after_returning err (after_abandoning w.phase),
        within w.phase,
        returned-Stands err _ c _
            (abandoned-Stands w.phase c _ (is_done-stopped w.ctx) (cancelled-Stands w m h)),
      ))
    where
      c : Context
      c = stopped canceled w.ctx

      is_done-stopped : (c : Context) → is_done (stopped canceled c) ≡ true
      is_done-stopped live = refl
      is_done-stopped canceled = refl
      is_done-stopped deadline_exceeded = refl

      within : (p : Phase) → IsLeft 7 (after_returning err (after_abandoning p))
      within waiting = omega arith
      within running = omega arith
      within (finishing slot s) = all_left s
      within releasing = tt
      within done = tt
