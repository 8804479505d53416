-- ===== src/Jobs/ModelAttach/Ends.antt =====
-- internal/jobs/model_attach.go: the handler ends, and with time it ends well.
use matrix_runtime.Common.{
  ℕ, zero, suc, ◌+◌, ◌*◌, ◌≤◌, ◌≡◌, refl, [], Option, none, some, arith, ltb, if-intro, Text, codes,
  ◌++◌,
}
use matrix_runtime.Common.Strings.{is_empty}
use matrix_runtime.Common.Int.{itoa}
use matrix_runtime.Logs.Bus.{EventStatus}
use matrix_runtime.Jobs.ModelAttach.{
  AttachPayload, World, Attach, Outcome, note, note_progress, update, write_row, after_sleep,
  report_ready, report_attached, mark_ready, serving_path, finish_serving, ready_profile, verify,
  capped, report_download, download, fetch_metadata, check_gpu, check_disk, handle_model_attach,
}

-- An outcome that is there, after a number of sleeps at most.
abbrev EndsBy : ℕ → Outcome → Type 0
EndsBy n o = (err : Option Text) × (s : Attach) × (o ≡ some (err, s)) × (s.slept ≤ n)

-- An operation that makes no sleep.
record KeepsSleeps (s t : Attach) : Type 0 where
  same : t.slept ≡ s.slept

KeepsSleeps-refl : {s : Attach} → KeepsSleeps s s
KeepsSleeps-refl = record { same = refl }

update-KeepsSleeps :
    (w : World) (p : AttachPayload) (status : Text) (progress : ℕ) (path : Text) {s t : Attach}
    → KeepsSleeps s t
    → KeepsSleeps s (update w p status progress path t)
unfolding update write_row
update-KeepsSleeps w p status progress path e = record { same = ground (arith, e.same) }

ready_profile-KeepsSleeps :
    (w : World) (p : AttachPayload) {s t : Attach}
    → KeepsSleeps s t
    → KeepsSleeps s (ready_profile w p t)
unfolding ready_profile
ready_profile-KeepsSleeps w p e = record { same = ground (arith, e.same) }

note-KeepsSleeps :
    (step : Text) (status : EventStatus) (message : Text) {s t : Attach}
    → KeepsSleeps s t
    → KeepsSleeps s (note step status message t)
unfolding note
note-KeepsSleeps step status message e = record { same = e.same }

note_progress-KeepsSleeps :
    (step : Text) (status : EventStatus) (message : Text) (pct : ℕ) {s t : Attach}
    → KeepsSleeps s t
    → KeepsSleeps s (note_progress step status message pct t)
unfolding note_progress
note_progress-KeepsSleeps step status message pct e = record { same = e.same }

module _ (w : World) (p : AttachPayload) where
  report_attached-KeepsSleeps : (s : Attach) → KeepsSleeps s (report_attached w p s)
  unfolding report_attached
  report_attached-KeepsSleeps s =
      note-KeepsSleeps (codes "attached") EventStatus.ok (codes "attached to " ++ p.runtime_id) (
        update-KeepsSleeps w p (codes "attached") 100 (serving_path w.data_dir p.model)
          (KeepsSleeps-refl {s = s}))

  mark_ready-KeepsSleeps :
      {s : Attach} (t : Attach) → KeepsSleeps s t → KeepsSleeps s (mark_ready w p t)
  unfolding mark_ready
  mark_ready-KeepsSleeps t e =
      note_progress-KeepsSleeps (codes "ready") EventStatus.ok
        (codes "model ready on " ++ p.runtime_id) 100
        (ready_profile-KeepsSleeps w p
          (update-KeepsSleeps w p (codes "ready") 100 (serving_path w.data_dir p.model) e))

  report_ready-KeepsSleeps : (s : Attach) → KeepsSleeps s (report_ready w p s)
  unfolding report_ready
  report_ready-KeepsSleeps s = record {
    same = (mark_ready-KeepsSleeps (report_attached w p s) (report_attached-KeepsSleeps s)).same;
  }

  report_download-KeepsSleeps : (pct : ℕ) (s : Attach) → KeepsSleeps s (report_download w p pct s)
  unfolding report_download
  report_download-KeepsSleeps pct s = update-KeepsSleeps w p (codes "downloading") pct [] (
      note_progress-KeepsSleeps (codes "downloading") EventStatus.running
        (codes "downloading weights " ++ itoa pct ++ codes "%") pct (KeepsSleeps-refl {s = s}))

  -- A stage ends after some sleeps at most.
  abbrev Ends : ℕ → (Attach → Outcome) → Type 0
  Ends n k = (s : Attach) (b : ℕ) → s.slept + n ≤ b → EndsBy b (k s)

  -- A stage that sleeps and goes on.
  after_sleep-Ends :
      (n : ℕ) (k : Attach → Outcome) (s t : Attach) (b : ℕ)
      → KeepsSleeps s t
      → Ends n k
      → s.slept + suc n ≤ b
      → EndsBy b (after_sleep w k t)
  after_sleep-Ends n k s t b same e h =
      if-intro (EndsBy b) (w.sleeps t.slept)
        (λ _. e (record t { slept = suc t.slept }) b (omega (arith, same.same, h)))
        (λ _. (none, record t { slept = suc t.slept }, refl, omega (arith, same.same, h)))

  finish_serving-Ends : (o : Option Text) → Ends 1 (finish_serving o w p)
  unfolding finish_serving
  finish_serving-Ends (some e) s b h =
      (some (codes "create serving profile: " ++ e), s, refl, omega (arith, h))
  finish_serving-Ends none s b h =
      after_sleep-Ends 0 (λ t. some (none, report_ready w p t)) s _ b
        (note-KeepsSleeps _ _ _ KeepsSleeps-refl)
        (λ t c g.
          (none, report_ready w p t, refl, omega (arith, (report_ready-KeepsSleeps t).same, g)))
        h

  verify-Ends : Ends 2 (verify w p)
  unfolding verify
  verify-Ends s b h =
      after_sleep-Ends 1 (finish_serving w.serving_error w p) s _ b
        (note-KeepsSleeps _ _ _ KeepsSleeps-refl) (finish_serving-Ends w.serving_error) h

  download-Ends : (fuel pct : ℕ) → 100 ≤ pct + 9 * fuel → Ends (fuel + 2) (download fuel w p pct)
  unfolding download
  download-Ends zero pct f s b h =
      if-intro (EndsBy b) (ltb pct 100) (λ e. absurd (ground (arith, e, f)))
        (λ e. verify-Ends s b h)
  download-Ends (suc fuel) pct f s b h =
      if-intro (EndsBy b) (ltb pct 100)
        (λ e.
          after_sleep-Ends (fuel + 2) (download fuel w p next) s (report_download w p next s) b
            (report_download-KeepsSleeps next s) (download-Ends fuel next enough)
            (omega (arith, h)))
        (λ e. verify-Ends s b (omega (arith, h)))
    where
      next : ℕ
      next = capped (pct + (9 + w.rands s.slept))

      enough : 100 ≤ next + 9 * fuel
      enough = ground (arith, f)

  fetch_metadata-Ends : Ends 14 (fetch_metadata w p)
  unfolding fetch_metadata
  fetch_metadata-Ends s b h =
      after_sleep-Ends 13 (λ t. download 11 w p 6 (update w p (codes "downloading") 0 [] t)) s _ b
        (note-KeepsSleeps _ _ _ KeepsSleeps-refl)
        (λ t c g. download-Ends 11 6 (omega arith) _ c (
          omega (
            arith,
            g,
            (update-KeepsSleeps w p (codes "downloading") 0 [] (KeepsSleeps-refl {s = t})).same,
          )))
        h

  check_gpu-Ends : Ends 15 (check_gpu w p)
  unfolding check_gpu
  check_gpu-Ends s b h =
      after_sleep-Ends 14 (fetch_metadata w p) s _ b (note-KeepsSleeps _ _ _ KeepsSleeps-refl)
        fetch_metadata-Ends h

  check_disk-Ends : (o : Option Text) → Ends 16 (check_disk o w p)
  unfolding check_disk
  check_disk-Ends (some e) s b h = (
    some (codes "disk check failed: " ++ e),
    _,
    refl,
    omega (
      arith,
      h,
      (note-KeepsSleeps (codes "checking_disk") EventStatus.error (codes "disk not writable: " ++ e)
          (KeepsSleeps-refl {s = s})).same,
    ),
  )
  check_disk-Ends none s b h =
      after_sleep-Ends 15 (check_gpu w p) s _ b (note-KeepsSleeps _ _ _ KeepsSleeps-refl)
        check_gpu-Ends h

  -- The handler of model.attach returns, with an error or none, after at most 17 sleeps, whatever the random
  -- increments, the context, the disk and the store do.
  pub handle_model_attach_ends :
      (s : Attach)
      → (err : Option Text) × (t : Attach) × (handle_model_attach w p s ≡ some (err, t))
        × (t.slept ≤ s.slept + 17)
  unfolding handle_model_attach
  handle_model_attach_ends s =
      if-intro (EndsBy (s.slept + 17)) (is_empty p.runtime_id)
        (λ e. (some (codes "runtime_id is required"), s, refl, omega arith))
        (λ e.
          after_sleep-Ends 16 (check_disk w.disk_error w p) s _ (s.slept + 17)
            (update-KeepsSleeps w p (codes "checking") 1 []
              (note-KeepsSleeps _ _ _ KeepsSleeps-refl))
            (check_disk-Ends w.disk_error) (omega arith))
