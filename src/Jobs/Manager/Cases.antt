-- ===== src/Jobs/Manager/Cases.antt =====
-- How to show a property of the manager after a step: one principle for each step that branches.
use matrix_runtime.Common.{
  ℕ, ◌-◌, ◌≡◌, refl, Bool, true, false, Option, none, some, if◌then◌else◌, Text, if-intro,
}
use matrix_runtime.Common.Dict.{lookup}
use matrix_runtime.Common.Int.{is_positive}
use matrix_runtime.Security.Limits.{TtlError, check_ttl}
use matrix_runtime.Jobs.Job.{Job}
use matrix_runtime.Jobs.Registry.{get, among}
use matrix_runtime.Jobs.Manager.{
  Manager, Worker, canceled, CreateRequest, unknown_type, create, start_worker, checked_start,
  handled_types,
}
use matrix_runtime.Jobs.Manager.Steps.{
  on_worker, stop_context, cancel_job, run_cleanup, sweep_jobs, sweep_logs, hours,
}

-- Create leaves the manager as it is or starts a worker.
module _ {ℓ} (P : Manager → Type ℓ) (req : CreateRequest) (now : ℕ) (id : Text) (m : Manager) where
  checked_cases :
      (o : Option TtlError)
      → P m
      → P (start_worker req now id m).1
      → P (checked_start o req now id m).1
  checked_cases none same started = started
  checked_cases (some e) same started = same

  pub create_cases : P m → P (start_worker req now id m).1 → P (create req now id m).1
  unfolding create
  create_cases same started =
      elim (among req.type handled_types)
        as (λ b.
          P
            (if b
              then checked_start (check_ttl req.ttl_seconds m.config.max_ttl_seconds) req now id m
              else (unknown_type req.type, m)).1) [
                | true ↦
                    checked_cases (check_ttl req.ttl_seconds m.config.max_ttl_seconds) same started
                | false ↦ same
              ]

module _ {ℓ} (P : Manager → Type ℓ) (id : Text) (m : Manager) where
  found_cases :
      (f : Worker → Manager → Manager) (o : Option Worker)
      → P m
      → ((w : Worker) → o ≡ some w → P (f w m))
      → P (elim o [ none ↦ m | some w ↦ f w m ])
  found_cases f none same step = same
  found_cases f (some w) same step = step w refl

  pub on_worker_cases :
      (f : Worker → Manager → Manager)
      → P m
      → ((w : Worker) → lookup id m.workers ≡ some w → P (f w m))
      → P (on_worker id f m)
  on_worker_cases f = found_cases f (lookup id m.workers)

  pub cancel_cases :
      P m
      → ((w : Worker) → lookup id m.workers ≡ some w → P (stop_context canceled id w m))
      → P (cancel_job id m).1
  unfolding cancel_job
  cancel_cases same step = go (get id m.registry)
    where
      go :
          (o : Option Job)
          → P
              (elim o as (λ x. Bool × Manager) [
                | none ↦ (false, m)
                | some j ↦ (true, on_worker id (stop_context canceled id) m)
              ]).1
      go none = same
      go (some j) = on_worker_cases (stop_context canceled id) same step

module _ {ℓ} (P : Manager → Type ℓ) (now : ℕ) (m : Manager) where
  pub cleanup_cases :
      P m
      → ((cutoff : ℕ) (n : Manager) → P n → P (sweep_jobs cutoff n))
      → ((cutoff : ℕ) (n : Manager) → P n → P (sweep_logs cutoff n))
      → P (run_cleanup now m)
  unfolding run_cleanup
  cleanup_cases same jobs logs =
      let cfg = m.config in
      let cutoff = now - hours cfg.job_retention_hours in
      let log_cutoff = now - hours cfg.log_retention_hours in
      let swept =
        if-intro P (is_positive cfg.job_retention_hours) {x = sweep_jobs cutoff m} {y = m}
          (λ e. jobs cutoff m same) (λ e. same) in
      if-intro P (is_positive cfg.log_retention_hours) (λ e. logs log_cutoff _ swept) (λ e. swept)
