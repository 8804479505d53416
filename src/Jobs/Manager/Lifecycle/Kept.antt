-- ===== src/Jobs/Manager/Lifecycle/Kept.antt =====
-- A step of another goroutine, or of `finish`, keeps a terminal status, and a job whose bus is closed.
use matrix_runtime.Common.{
  ℕ, ◌≡◌, refl, ◌∙◌, sym, ap, subst, Bool, true, false, ◌&&◌, not, ◌⊎◌, inl, inr, Option, none,
  some, arith, ltb, if◌then◌else◌, if-intro, Text, codes, Bool-cases, some_inj,
}
use matrix_runtime.Common.Strings.{eq_text, eq_text_iff}
use matrix_runtime.Common.Dict.{lookup, modify}
use matrix_runtime.Common.Dict.Laws.{lookup-modify, mapped, retained}
use matrix_runtime.Jobs.Job.{Job, Status, is_terminal, set_status}
use matrix_runtime.Jobs.Registry.{Registry, get, is_purged, purge_terminal_before}
use matrix_runtime.Jobs.Registry.Purge.{get-purge}
use matrix_runtime.Jobs.Manager.{
  Manager, Worker, Phase, waiting, running, finishing, releasing, done, Stage, leaving, clearing,
  choosing, recording, failing, telling, closing, by_deadline, by_cancel, by_error, by_success,
  stage_job, tell_outcome, CreateRequest, start_worker, capacity, update_job,
}
use matrix_runtime.Jobs.Manager.Lifecycle.{StandsAt, StandsIn, HasLifecycle}
use matrix_runtime.Jobs.Manager.Lifecycle.Reachable.{
  remove_each-same, new_job, started_jobs, sweep_jobs-HasLifecycle,
}
use matrix_runtime.Jobs.Manager.Steps.{
  acquire, abandon, return, release, handle, sweep_jobs, sweep_logs, take_slot, give_slot, enter,
  advance, advance_at, finish_step, is_waiting, is_running, is_releasing, is_done, Effect,
  apply_effect,
}

-- Before the end of a job its status is none of the terminal ones.
queued_or_running :
    (w : Worker) (j : Job)
    → (is_waiting w.phase ≡ true) ⊎ (is_running w.phase ≡ true)
    → StandsAt w.phase j
    → is_terminal j.status ≡ false
queued_or_running w j g a = go w.phase g a
  where
    go :
        (p : Phase)
        → (is_waiting p ≡ true) ⊎ (is_running p ≡ true)
        → StandsAt p j
        → is_terminal j.status ≡ false
    go waiting g a = unfold is_terminal in rw a.0
    go running g a = unfold is_terminal in rw a.0
    go (finishing slot s) g a = absurd (ground arith)
    go releasing g a = absurd (ground arith)
    go done g a = absurd (ground arith)

-- A step of `finish` on a job with a terminal status leaves that status, and the bus is still open.
stage_job-status :
    (s : Stage) (j : Job)
    → is_terminal j.status ≡ true
    → StandsIn s j
    → ((stage_job s j).status ≡ j.status) × (j.bus.closed ≡ false)
unfolding stage_job
stage_job-status (leaving err) j t a = (refl, a.1)
stage_job-status (clearing err) j t a = (refl, a.1)
stage_job-status (choosing err) j t a = (refl, a.1)
stage_job-status (recording o) j t a = absurd (cc (t, a.0))
stage_job-status (failing err) j t a = (refl, a.1)
stage_job-status (telling by_deadline) j t a = unfold tell_outcome in (refl, a.1)
stage_job-status (telling by_cancel) j t a = unfold tell_outcome in (refl, a.1)
stage_job-status (telling (by_error err)) j t a = unfold tell_outcome in (refl, a.1)
stage_job-status (telling by_success) j t a = unfold tell_outcome in (refl, a.1)
stage_job-status closing j t a = (refl, a.1)

-- What a job with a terminal status may become: one with that status, and itself where its bus is closed.
abbrev pub Follows : Job → Job → Type 0
Follows j j' = (j'.status ≡ j.status) × (j.bus.closed ≡ true → j' ≡ j)

module _ (id : Text) (j : Job) where
  -- The registry no longer has the job, or has what it may become.
  abbrev pub Kept : Manager → Type 0
  Kept n =
      (lookup id n.registry.jobs ≡ none)
      ⊎ ((j' : Job) × (lookup id n.registry.jobs ≡ some j') × Follows j j')

  modify-Kept :
      (k : Text) (f : Job → Job) (m n : Manager)
      → lookup id m.registry.jobs ≡ some j
      → (eq_text k id ≡ true → Follows j (f j))
      → n.registry.jobs ≡ modify k f m.registry.jobs
      → Kept n
  modify-Kept k f m n l own e = elim (Bool-cases (eq_text k id)) [
    | inl same ↦ inr (f j, shown true same ∙ ap (mapped f) l, own same)
    | inr other ↦ inr (j, shown false other ∙ l, (refl, λ c. refl))
  ]
    where
      shown :
          (b : Bool)
          → eq_text k id ≡ b
          → lookup id n.registry.jobs
            ≡ (if b then mapped f (lookup id m.registry.jobs) else lookup id m.registry.jobs)
      shown b q =
          ap (lookup id) e
          ∙ lookup-modify k id f m.registry.jobs
          ∙ ap (λ b. if b then mapped f (lookup id m.registry.jobs) else lookup id m.registry.jobs)
              q

  module _ (m : Manager) (h : HasLifecycle m) (l : lookup id m.registry.jobs ≡ some j)
      (t : is_terminal j.status ≡ true) where
    own_stands :
        (k : Text) (w : Worker)
        → lookup k m.workers ≡ some w
        → eq_text k id ≡ true
        → StandsAt w.phase j
    own_stands k w e same =
        let (v, at, a) = h.agrees id j l in
        let one : v ≡ w =
          some_inj (sym at ∙ ap (λ i. lookup i m.workers) (sym ((eq_text_iff k id).0 same)) ∙ e) in
        subst (λ x. StandsAt x.phase j) one a.stands

    -- A goroutine before `finish` is another job's.
    other_worker :
        (k : Text) (w : Worker) (f : Job → Job)
        → lookup k m.workers ≡ some w
        → (is_waiting w.phase ≡ true) ⊎ (is_running w.phase ≡ true)
        → eq_text k id ≡ true
        → Follows j (f j)
    other_worker k w f e g same = absurd (clash (queued_or_running w j g (own_stands k w e same)))
      where
        clash : is_terminal j.status ≡ false → ⊥
        clash f = cc

    pub held_now : Kept m
    held_now = inr (j, l, (refl, λ c. refl))

    pub acquire-Kept : (k : Text) (w : Worker) → lookup k m.workers ≡ some w → Kept (acquire k w m)
    unfolding acquire take_slot
    acquire-Kept k w e =
        if-intro Kept (is_waiting w.phase && ltb m.used (capacity m)) {x = take_slot k w m}
          (λ g.
            modify-Kept k (set_status Status.running) m (take_slot k w m) l
              (other_worker k w (set_status Status.running) e (inl (and_first g))) refl)
          (λ g. held_now)
      where
        and_first :
            (is_waiting w.phase && ltb m.used (capacity m)) ≡ true → is_waiting w.phase ≡ true
        and_first g = ground arith

    pub abandon-Kept : (k : Text) (w : Worker) → Kept (abandon k w m)
    unfolding abandon enter
    abandon-Kept k w =
        let p = finishing false (leaving (some (codes "cancelled before start"))) in
        if-intro Kept (is_waiting w.phase && is_done w.ctx) {x = enter p k w m} (λ g. held_now)
          (λ g. held_now)

    pub return-Kept : (err : Option Text) (k : Text) (w : Worker) → Kept (return err k w m)
    unfolding return enter
    return-Kept err k w =
        if-intro Kept (is_running w.phase) {x = enter (finishing true (leaving err)) k w m}
          (λ g. held_now) (λ g. held_now)

    pub advance-Kept : (k : Text) (w : Worker) → lookup k m.workers ≡ some w → Kept (advance k w m)
    unfolding advance
    advance-Kept k w e = go w.phase refl
      where
        stepped :
            (slot : Bool) (s : Stage)
            → w.phase ≡ finishing slot s
            → eq_text k id ≡ true
            → Follows j (stage_job s j)
        stepped slot s p same =
            let (status, opened) =
              stage_job-status s j t (subst (λ p. StandsAt p j) p (own_stands k w e same)) in
            (status, λ c. absurd (cc (c, opened)))

        go : (p : Phase) → w.phase ≡ p → Kept (advance_at p k w m)
        go waiting p = held_now
        go running p = held_now
        go (finishing slot s) p =
            unfold finish_step in
            modify-Kept k (stage_job s) m (finish_step slot s k w m) l (stepped slot s p) refl
        go releasing p = held_now
        go done p = held_now

    pub handle-Kept :
        (x : Effect) (k : Text) (w : Worker) → lookup k m.workers ≡ some w → Kept (handle x k w m)
    unfolding handle update_job
    handle-Kept x k w e =
        if-intro Kept (is_running w.phase) {x = update_job k (apply_effect x) m}
          (λ g.
            modify-Kept k (apply_effect x) m (update_job k (apply_effect x) m) l
              (other_worker k w (apply_effect x) e (inr g)) refl)
          (λ g. held_now)

    pub release-Kept : (k : Text) (w : Worker) → lookup k m.workers ≡ some w → Kept (release k w m)
    unfolding release give_slot
    release-Kept k w e =
        if-intro Kept (is_releasing w.phase) {x = give_slot k w m} (λ g. held_now) (λ g. held_now)

    pub started-Kept :
        (req : CreateRequest) (now : ℕ) (k : Text)
        → lookup k m.workers ≡ none
        → Kept (start_worker req now k m).1
    started-Kept req now k f = elim (Bool-cases (eq_text k id)) [
      | inl same ↦
          let (v, at, a) = h.agrees id j l in
          absurd
            (clash (sym at ∙ ap (λ i. lookup i m.workers) (sym ((eq_text_iff k id).0 same)) ∙ f))
      | inr other ↦ inr (
        j,
        started_jobs req now k m id
            ∙ ap (λ b. if b then some (new_job req now k m) else lookup id m.registry.jobs) other
            ∙ l,
        (refl, λ c. refl),
      )
    ]
      where
        clash : {v : Worker} → some v ≡ none → ⊥
        clash e = cc

  -- The purge keeps a job or takes it away.
  pub sweep_jobs-Kept :
      (cutoff : ℕ) (n : Manager)
      → HasLifecycle n × Kept n
      → HasLifecycle (sweep_jobs cutoff n) × Kept (sweep_jobs cutoff n)
  sweep_jobs-Kept cutoff n (h, k) = (sweep_jobs-HasLifecycle cutoff n h, kept)
    where
      after :
          lookup id (sweep_jobs cutoff n).registry.jobs
          ≡ retained (λ i. not (is_purged cutoff i)) (lookup id n.registry.jobs)
      after =
          unfold sweep_jobs get in
          ap (λ (r : Registry). lookup id r.jobs)
            (remove_each-same (purge_terminal_before cutoff n.registry).0
              (record n { registry = (purge_terminal_before cutoff n.registry).1 })).0
          ∙ get-purge cutoff n.registry id h.keyed

      kept : Kept (sweep_jobs cutoff n)
      kept = elim k [
        | inl gone ↦ inl (after ∙ ap (retained (λ i. not (is_purged cutoff i))) gone)
        | inr (j', at, follows) ↦
            purged j' follows (after ∙ ap (retained (λ i. not (is_purged cutoff i))) at)
      ]
        where
          purged :
              (j' : Job)
              → Follows j j'
              → lookup id (sweep_jobs cutoff n).registry.jobs
                ≡ retained (λ i. not (is_purged cutoff i)) (some j')
              → Kept (sweep_jobs cutoff n)
          purged j' follows e = elim (Bool-cases (is_purged cutoff j')) [
            | inl b ↦ inl (ground (arith, e, b))
            | inr b ↦ inr (j', ground (arith, e, b), follows)
          ]

  pub sweep_logs-Kept :
      (cutoff : ℕ) (n : Manager)
      → HasLifecycle n × Kept n
      → HasLifecycle (sweep_logs cutoff n) × Kept (sweep_logs cutoff n)
  unfolding sweep_logs
  sweep_logs-Kept cutoff n (h, k) = (record { keyed = h.keyed; agrees = h.agrees }, k)
