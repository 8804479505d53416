-- ===== src/Jobs/Manager/Lifecycle/Preservation.antt =====
-- Every step on one job keeps the agreement between the jobs and their goroutines.
use matrix_runtime.Common.{
  ◌≡◌, refl, ◌∙◌, sym, ap, subst, Bool, true, false, ◌&&◌, Option, some, arith, ltb, if-intro, Text,
  codes,
}
use matrix_runtime.Common.Strings.{eq_text_iff}
use matrix_runtime.Common.Dict.{lookup, insert}
use matrix_runtime.Common.Dict.Laws.{lookup-insert, modify_id}
use matrix_runtime.Logs.Bus.Safety.{IsSafe}
use matrix_runtime.Jobs.Job.{Job, Status, is_terminal, set_status}
use matrix_runtime.Jobs.Job.Events.{emit-Emitted}
use matrix_runtime.Jobs.Registry.{Registry}
use matrix_runtime.Jobs.Manager.{
  Manager, Worker, Phase, waiting, running, finishing, releasing, done, Context, canceled, capacity,
  Stage, leaving, update_job, stage_job, next_phase,
}
use matrix_runtime.Jobs.Manager.Lifecycle.{
  Ended, StandsAt, HasLifecycle, stage_job-StandsAt, step_lifecycle,
}
use matrix_runtime.Jobs.Manager.Steps.{
  acquire, abandon, return, release, handle, stop_context, take_slot, give_slot, enter, advance,
  advance_at, finish_step, is_waiting, is_running, is_releasing, is_done, stopped, Effect, emitted,
  resulted, attached, apply_effect,
}

and_left : (a b : Bool) → (a && b) ≡ true → a ≡ true
and_left true b h = refl
and_left false b h = h

-- What the guards of the steps say of the job.
waiting_open :
    (p : Phase) (j : Job)
    → is_waiting p ≡ true
    → StandsAt p j
    → (j.status ≡ Status.queued) × (j.bus.closed ≡ false)
waiting_open waiting j g a = (a.0, a.1)
waiting_open running j g a = absurd (cc g)
waiting_open (finishing slot s) j g a = absurd (cc g)
waiting_open releasing j g a = absurd (cc g)
waiting_open done j g a = absurd (cc g)

running_open :
    (p : Phase) (j : Job)
    → is_running p ≡ true
    → StandsAt p j
    → (j.status ≡ Status.running) × (j.bus.closed ≡ false)
running_open running j g a = a
running_open waiting j g a = absurd (cc g)
running_open (finishing slot s) j g a = absurd (cc g)
running_open releasing j g a = absurd (cc g)
running_open done j g a = absurd (cc g)

running_stands :
    (p : Phase) (j : Job)
    → is_running p ≡ true
    → (j.status ≡ Status.running) × (j.bus.closed ≡ false)
    → StandsAt p j
running_stands running j g a = a
running_stands waiting j g a = absurd (cc g)
running_stands (finishing slot s) j g a = absurd (cc g)
running_stands releasing j g a = absurd (cc g)
running_stands done j g a = absurd (cc g)

releasing-Ended : (p : Phase) (j : Job) → is_releasing p ≡ true → StandsAt p j → Ended j
releasing-Ended releasing j g a = a
releasing-Ended (finishing slot s) j g a = absurd (cc g)
releasing-Ended waiting j g a = absurd (cc g)
releasing-Ended running j g a = absurd (cc g)
releasing-Ended done j g a = absurd (cc g)

apply_effect-running :
    (x : Effect) (j : Job)
    → IsSafe j.bus
    → (j.status ≡ Status.running) × (j.bus.closed ≡ false)
    → IsSafe (apply_effect x j).bus
      × ((apply_effect x j).status ≡ Status.running)
      × ((apply_effect x j).bus.closed ≡ false)
unfolding apply_effect
apply_effect-running (emitted step status message fields) j s r =
    let e = emit-Emitted step status message fields j s in (e.safe, r.0, e.closed ∙ r.1)
apply_effect-running (resulted x) j s r = (s, r.0, r.1)
apply_effect-running (attached x) j s r = (s, r.0, r.1)

module _ (id : Text) (w : Worker) (m : Manager) (h : HasLifecycle m)
    (e : lookup id m.workers ≡ some w) where
  pub acquire-HasLifecycle : HasLifecycle (acquire id w m)
  unfolding acquire
  acquire-HasLifecycle =
      if-intro HasLifecycle (is_waiting w.phase && ltb m.used (capacity m)) {x = take_slot id w m}
        (λ g.
          unfold take_slot in
          step_lifecycle id w (record w { phase = running }) (set_status Status.running) m
            (take_slot id w m) h e refl refl (λ k. lookup-insert id k _ m.workers)
            (λ j a. record {
              stands = (
                refl,
                (waiting_open w.phase j (and_left (is_waiting w.phase) (ltb m.used (capacity m)) g)
                    a.stands).1,
              );
              bus = a.bus;
            }))
        (λ g. h)

  -- A step on the goroutine alone.
  worker_lifecycle :
      (v : Worker) (m' : Manager)
      → m'.registry ≡ m.registry
      → m'.workers ≡ insert id v m.workers
      → ((j : Job) → StandsAt w.phase j → StandsAt v.phase j)
      → HasLifecycle m'
  worker_lifecycle v m' r ws keeps =
      step_lifecycle id w v (λ j. j) m m' h e
        (ap (λ (g : Registry). g.jobs) r ∙ sym (modify_id id m.registry.jobs))
        (ap (λ (g : Registry). g.sandboxes) r)
        (λ k. ap (lookup k) ws ∙ lookup-insert id k v m.workers)
        (λ j a. record { stands = keeps j a.stands; bus = a.bus })

  -- `run` calls `finish` for a job without a terminal status.
  pub abandon-HasLifecycle : HasLifecycle (abandon id w m)
  unfolding abandon
  abandon-HasLifecycle =
      let p = finishing false (leaving (some (codes "cancelled before start"))) in
      if-intro HasLifecycle (is_waiting w.phase && is_done w.ctx) {x = enter p id w m}
        (λ g.
          unfold enter in
          worker_lifecycle (record w { phase = p }) (enter p id w m) refl refl
            (λ j a.
              let (status, opened) =
                waiting_open w.phase j (and_left (is_waiting w.phase) (is_done w.ctx) g) a in
              (ap is_terminal status ∙ (unfold is_terminal in refl), opened)))
        (λ g. h)

  pub return-HasLifecycle : (err : Option Text) → HasLifecycle (return err id w m)
  unfolding return
  return-HasLifecycle err =
      let p = finishing true (leaving err) in
      if-intro HasLifecycle (is_running w.phase) {x = enter p id w m}
        (λ g.
          unfold enter in
          worker_lifecycle (record w { phase = p }) (enter p id w m) refl refl
            (λ j a.
              let (status, opened) = running_open w.phase j g a in
              (ap is_terminal status ∙ (unfold is_terminal in refl), opened)))
        (λ g. h)

  finish_step-HasLifecycle :
      (slot : Bool) (s : Stage)
      → w.phase ≡ finishing slot s
      → HasLifecycle (finish_step slot s id w m)
  unfolding finish_step
  finish_step-HasLifecycle slot s p =
      step_lifecycle id w (record w { phase = next_phase w.ctx slot s }) (stage_job s) m
        (finish_step slot s id w m) h e refl refl (λ k. lookup-insert id k _ m.workers)
        (λ j a.
          let (stands, safe) =
            stage_job-StandsAt w.ctx slot s j a.bus (subst (λ p. StandsAt p j) p a.stands) in
          record { stands = stands; bus = safe })

  pub advance-HasLifecycle : HasLifecycle (advance id w m)
  unfolding advance
  advance-HasLifecycle = go w.phase refl
    where
      go : (p : Phase) → w.phase ≡ p → HasLifecycle (advance_at p id w m)
      go waiting q = h
      go running q = h
      go (finishing slot s) q = finish_step-HasLifecycle slot s q
      go releasing q = h
      go done q = h

  pub release-HasLifecycle : HasLifecycle (release id w m)
  unfolding release
  release-HasLifecycle =
      if-intro HasLifecycle (is_releasing w.phase) {x = give_slot id w m}
        (λ g.
          unfold give_slot in
          worker_lifecycle (record { phase = done; ctx = stopped canceled w.ctx })
            (give_slot id w m) refl refl (λ j a. releasing-Ended w.phase j g a))
        (λ g. h)

  pub stop_context-HasLifecycle : (why : Context) → HasLifecycle (stop_context why id w m)
  unfolding stop_context
  stop_context-HasLifecycle why =
      worker_lifecycle (record w { ctx = stopped why w.ctx }) (stop_context why id w m) refl refl
        (λ j a. a)

  pub handle-HasLifecycle : (x : Effect) → HasLifecycle (handle x id w m)
  unfolding handle
  handle-HasLifecycle x =
      if-intro HasLifecycle (is_running w.phase) {x = update_job id (apply_effect x) m}
        (λ g.
          unfold update_job in
          step_lifecycle id w w (apply_effect x) m (update_job id (apply_effect x) m) h e refl refl
            (λ k. ground (arith, eq_text_iff id k))
            (λ j a.
              let (safe, status, opened) =
                apply_effect-running x j a.bus (running_open w.phase j g a.stands) in
              record {
                stands = running_stands w.phase (apply_effect x j) g (status, opened);
                bus = safe;
              }))
        (λ g. h)
