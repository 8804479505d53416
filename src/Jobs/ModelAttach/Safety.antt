-- ===== src/Jobs/ModelAttach/Safety.antt =====
-- internal/jobs/model_attach.go: while the job has no result, no installation is ready.
use matrix_runtime.Common.{
  ℕ, zero, suc, ◌+◌, ◌≡◌, refl, subst, false, ◌&&◌, ◌⊎◌, not, List, [], ◌∷◌, All, Option, none,
  some, arith, ltb, if◌then◌else◌, if-intro, Text, codes, inl, inr, ◌++◌,
}
use matrix_runtime.Common.Strings.{eq_text, is_empty}
use matrix_runtime.Common.Int.{itoa}
use matrix_runtime.Logs.Bus.{EventStatus}
use matrix_runtime.Jobs.Job.{emit, set_result}
use matrix_runtime.Store.Tables.{StoreError}
use matrix_runtime.Jobs.ModelAttach.Ends.{handle_model_attach_ends}
use matrix_runtime.Store.Models.{Installation, update_row, moved, update_installation}
use matrix_runtime.Jobs.ModelAttach.{
  AttachPayload, World, Attach, Outcome, note, note_progress, update, write_row, after_sleep,
  attach_result, report_ready, finish_serving, verify, capped, report_download, download,
  fetch_metadata, check_gpu, check_disk, handle_model_attach, is_hf, hf_model, or_dash,
}

-- No row of the installation is ready.
abbrev pub IsUnready : Text → List Installation → Type 0
IsUnready id = All (λ i. (eq_text i.id id && eq_text i.status (codes "ready")) ≡ false)

update_row-IsUnready :
    (key status : Text) (progress : ℕ) (path url : Text) (now : ℕ) (rows : List Installation)
    → eq_text status (codes "ready") ≡ false
    → IsUnready key rows
    → IsUnready key (update_row key (moved status progress path url now) rows)
unfolding moved
update_row-IsUnready key status progress path url now [] n h = tt
update_row-IsUnready key status progress path url now (i ∷ rows) n h = (
  if-intro (λ (x : Installation). (eq_text x.id key && eq_text x.status (codes "ready")) ≡ false)
      (eq_text i.id key) (λ e. ground (arith, n)) (λ e. h.0),
  update_row-IsUnready key status progress path url now rows n h.1,
)

-- The job has no result yet, and its installation is not ready.
record IsOpen (p : AttachPayload) (s : Attach) : Type 0 where
  no_result : s.job.result ≡ none
  unready : IsUnready p.installation_id s.installs

note-IsOpen :
    (p : AttachPayload) (step : Text) (status : EventStatus) (message : Text) (s : Attach)
    → IsOpen p s
    → IsOpen p (note step status message s)
unfolding note emit
note-IsOpen p step status message s h = record { no_result = h.no_result; unready = h.unready }

note_progress-IsOpen :
    (p : AttachPayload) (step : Text) (status : EventStatus) (message : Text) (pct : ℕ) (s : Attach)
    → IsOpen p s
    → IsOpen p (note_progress step status message pct s)
unfolding note_progress emit
note_progress-IsOpen p step status message pct s h = record {
  no_result = h.no_result;
  unready = h.unready;
}

write_row-IsOpen :
    (w : World) (p : AttachPayload) (status : Text) (progress : ℕ) (path : Text) (s : Attach)
    → eq_text status (codes "ready") ≡ false
    → IsOpen p s
    → IsOpen p (write_row w p status progress path s)
unfolding write_row update_installation
write_row-IsOpen w p status progress path s n h = record {
  no_result = h.no_result;
  unready =
      if-intro (λ (r : Option StoreError × List Installation). IsUnready p.installation_id r.1)
        (w.db_fails s.writes) (λ e. h.unready)
        (λ e.
          update_row-IsUnready p.installation_id status progress path [] (w.clock s.writes)
            s.installs n h.unready);
}

update-IsOpen :
    (w : World) (p : AttachPayload) (status : Text) (progress : ℕ) (path : Text) (s : Attach)
    → eq_text status (codes "ready") ≡ false
    → IsOpen p s
    → IsOpen p (update w p status progress path s)
unfolding update
update-IsOpen w p status progress path s n h =
    if-intro (IsOpen p) (w.has_db && not (is_empty p.installation_id))
      (λ e. write_row-IsOpen w p status progress path s n h) (λ e. h)

-- What an outcome shows: the result with no error, or a job without one whose installation is not ready.
abbrev pub Shows : World → AttachPayload → Option Text → Attach → Type 0
Shows w p err t =
    ((err ≡ none) × (t.job.result ≡ some (attach_result w p)))
    ⊎ ((t.job.result ≡ none) × IsUnready p.installation_id t.installs)

-- A stage keeps the promise whenever it gives an outcome.
abbrev Tells : World → AttachPayload → Outcome → Type 0
Tells w p none = Unit
Tells w p (some (err, t)) = Shows w p err t

module _ (w : World) (p : AttachPayload) where
  abbrev IsHonest : (Attach → Outcome) → Type 0
  IsHonest k = (s : Attach) → IsOpen p s → Tells w p (k s)

  after_sleep-IsHonest :
      (k : Attach → Outcome) (s : Attach) → IsOpen p s → IsHonest k → Tells w p (after_sleep w k s)
  after_sleep-IsHonest k s h e =
      if-intro (Tells w p) (w.sleeps s.slept)
        (λ _.
          e (record s { slept = suc s.slept })
            (record { no_result = h.no_result; unready = h.unready }))
        (λ _. inr (h.no_result, h.unready))

  report_ready-result : (s : Attach) → (report_ready w p s).job.result ≡ some (attach_result w p)
  unfolding report_ready set_result
  report_ready-result s = refl

  finish_serving-IsHonest : (o : Option Text) → IsHonest (finish_serving o w p)
  unfolding finish_serving
  finish_serving-IsHonest (some e) s h = inr (h.no_result, h.unready)
  finish_serving-IsHonest none s h =
      after_sleep-IsHonest (λ t. some (none, report_ready w p t)) _
        (note-IsOpen p (codes "creating_profile") EventStatus.ok
          (codes "serving profile (" ++ or_dash p.serving_engine ++ codes ") created") s h)
        (λ t o. inl (refl, report_ready-result t))

  verify-IsHonest : IsHonest (verify w p)
  unfolding verify
  verify-IsHonest s h =
      after_sleep-IsHonest (finish_serving w.serving_error w p) _
        (note-IsOpen p (codes "verifying") EventStatus.ok (codes "checksums verified · safetensors")
          s h)
        (finish_serving-IsHonest w.serving_error)

  report_download-IsOpen :
      (pct : ℕ) (s : Attach) → IsOpen p s → IsOpen p (report_download w p pct s)
  unfolding report_download eq_text
  report_download-IsOpen pct s h = update-IsOpen w p (codes "downloading") pct [] _ refl (
      note_progress-IsOpen p (codes "downloading") EventStatus.running
        (codes "downloading weights " ++ itoa pct ++ codes "%") pct s h)

  download-IsHonest : (fuel pct : ℕ) → IsHonest (download fuel w p pct)
  unfolding download
  download-IsHonest zero pct s h =
      if-intro (Tells w p) (ltb pct 100) {x = none} (λ e. tt) (λ e. verify-IsHonest s h)
  download-IsHonest (suc fuel) pct s h =
      let next = capped (pct + (9 + w.rands s.slept)) in
      if-intro (Tells w p) (ltb pct 100)
        (λ e.
          after_sleep-IsHonest (download fuel w p next) (report_download w p next s)
            (report_download-IsOpen next s h) (download-IsHonest fuel next))
        (λ e. verify-IsHonest s h)

  fetch_metadata-IsHonest : IsHonest (fetch_metadata w p)
  unfolding fetch_metadata eq_text
  fetch_metadata-IsHonest s h =
      after_sleep-IsHonest (λ t. download 11 w p 6 (update w p (codes "downloading") 0 [] t)) _
        (note-IsOpen p (codes "fetching_metadata") EventStatus.ok
          (if is_hf p
            then w.metadata (hf_model p)
            else codes "metadata resolved from " ++ or_dash p.provider)
          s h)
        (λ t o. download-IsHonest 11 6 _ (update-IsOpen w p (codes "downloading") 0 [] t refl o))

  check_gpu-IsHonest : IsHonest (check_gpu w p)
  unfolding check_gpu
  check_gpu-IsHonest s h =
      after_sleep-IsHonest (fetch_metadata w p) _
        (note-IsOpen p (codes "checking_gpu") EventStatus.ok
          (codes "gpu memory check passed (advisory)") s h)
        fetch_metadata-IsHonest

  check_disk-IsHonest : (o : Option Text) → IsHonest (check_disk o w p)
  unfolding check_disk
  check_disk-IsHonest (some e) s h =
      let o =
        note-IsOpen p (codes "checking_disk") EventStatus.error (codes "disk not writable: " ++ e) s
          h in
      inr (o.no_result, o.unready)
  check_disk-IsHonest none s h =
      after_sleep-IsHonest (check_gpu w p) _
        (note-IsOpen p (codes "checking_disk") EventStatus.ok
          (codes "disk: data directory writable") s h)
        check_gpu-IsHonest

  handle-IsHonest : IsHonest (handle_model_attach w p)
  unfolding handle_model_attach eq_text
  handle-IsHonest s h =
      if-intro (Tells w p) (is_empty p.runtime_id)
        {x = some (some (codes "runtime_id is required"), s)} (λ e. inr (h.no_result, h.unready))
        (λ e.
          after_sleep-IsHonest (check_disk w.disk_error w p) _
            (update-IsOpen w p (codes "checking") 1 [] _ refl (
              note-IsOpen p (codes "checking_runtime") EventStatus.ok
                (codes "runtime " ++ p.runtime_id ++ codes " reachable") s h))
            (check_disk-IsHonest w.disk_error))

  -- Started on a job without a result whose installation is not ready, the handler of model.attach returns, and
  -- then either it returns no error and the job has the result that tells of the ready model, or the job has no
  -- result and no row of the installation is ready: not after an error, nor when the context ends in any sleep.
  pub handle_model_attach_honest :
      (s : Attach)
      → s.job.result ≡ none
      → All
          (λ i. (eq_text i.id p.installation_id && eq_text i.status (codes "ready")) ≡ false)
          s.installs
      → (err : Option Text) × (t : Attach) × (handle_model_attach w p s ≡ some (err, t))
        × Shows w p err t
  handle_model_attach_honest s r u =
      let (err, t, e, b) = handle_model_attach_ends w p s in
      (err, t, e, subst (Tells w p) e (handle-IsHonest s (record { no_result = r; unready = u })))
