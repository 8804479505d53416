-- ===== src/Jobs/ModelAttach/Ready.antt =====
-- internal/jobs/model_attach.go: where nothing fails and the context lasts, the model becomes ready.
use matrix_runtime.Common.{
  ℕ, zero, suc, ◌+◌, ◌*◌, ◌≤◌, ◌≡◌, refl, sym, subst, true, false, ◌&&◌, not, List, [], ◌∷◌, All,
  Option, none, some, arith, ltb, ◌==◌, ◌||◌, if-intro, Text, codes,
}
use matrix_runtime.Common.Strings.{eq_text, is_empty}
use matrix_runtime.Jobs.Job.{set_result}
use matrix_runtime.Store.Tables.{StoreError, database}
use matrix_runtime.Store.Models.{Installation, update_row, moved, update_installation}
use matrix_runtime.Jobs.ModelAttach.{
  AttachPayload, World, Attach, Outcome, note_progress, update, write_row, ready_profile,
  after_sleep, report_attached, mark_ready, attach_result, report_ready, serving_path,
  finish_serving, verify, capped, report_download, download, fetch_metadata, check_gpu, check_disk,
  handle_model_attach,
}

-- Every row of the installation is ready, with its progress at 100.
abbrev pub IsReady : Text → List Installation → Type 0
IsReady id =
    All
      (λ i. (not (eq_text i.id id) || eq_text i.status (codes "ready") && i.progress == 100) ≡ true)

update_row-IsReady :
    (key path url : Text) (now : ℕ) (rows : List Installation)
    → IsReady key (update_row key (moved (codes "ready") 100 path url now) rows)
unfolding moved eq_text
update_row-IsReady key path url now [] = tt
update_row-IsReady key path url now (i ∷ rows) = (
  if-intro
      (λ (x : Installation).
        (not (eq_text x.id key) || eq_text x.status (codes "ready") && x.progress == 100) ≡ true)
      (eq_text i.id key) {y = i} (λ e. ground arith) (λ e. ground (arith, e)),
  update_row-IsReady key path url now rows,
)

-- Nothing fails, and the context outlasts the handler.
record IsCalm (w : World) (p : AttachPayload) : Type 0 where
  lasts : (n : ℕ) → w.sleeps n ≡ true
  disk : w.disk_error ≡ none
  serving : w.serving_error ≡ none

module _ (w : World) (p : AttachPayload) where
  -- The handler gets to its end.
  abbrev Finishes : Outcome → Type 0
  Finishes o = (t : Attach) × (o ≡ some (none, report_ready w p t))

  module _ (calm : IsCalm w p) where
    after_sleep-Finishes :
        (k : Attach → Outcome) (s : Attach)
        → ((t : Attach) → Finishes (k t))
        → Finishes (after_sleep w k s)
    after_sleep-Finishes k s e =
        if-intro Finishes (w.sleeps s.slept) (λ _. e (record s { slept = suc s.slept }))
          (λ g. absurd (ground (arith, g, calm.lasts s.slept)))

    finish_serving-Finishes :
        (o : Option Text) → o ≡ none → (s : Attach) → Finishes (finish_serving o w p s)
    unfolding finish_serving
    finish_serving-Finishes (some e) h s = absurd (cc h)
    finish_serving-Finishes none h s =
        after_sleep-Finishes (λ t. some (none, report_ready w p t)) _ (λ t. (t, refl))

    verify-Finishes : (s : Attach) → Finishes (verify w p s)
    unfolding verify
    verify-Finishes s =
        after_sleep-Finishes (finish_serving w.serving_error w p) _
          (finish_serving-Finishes w.serving_error calm.serving)

    download-Finishes :
        (fuel pct : ℕ) → 100 ≤ pct + 9 * fuel → (s : Attach) → Finishes (download fuel w p pct s)
    unfolding download
    download-Finishes zero pct f s =
        if-intro Finishes (ltb pct 100) (λ e. absurd (ground (arith, e, f)))
          (λ e. verify-Finishes s)
    download-Finishes (suc fuel) pct f s =
        if-intro Finishes (ltb pct 100)
          (λ e.
            after_sleep-Finishes (download fuel w p next) (report_download w p next s)
              (download-Finishes fuel next enough))
          (λ e. verify-Finishes s)
      where
        next : ℕ
        next = capped (pct + (9 + w.rands s.slept))

        enough : 100 ≤ next + 9 * fuel
        enough = ground (arith, f)

    fetch_metadata-Finishes : (s : Attach) → Finishes (fetch_metadata w p s)
    unfolding fetch_metadata
    fetch_metadata-Finishes s =
        after_sleep-Finishes (λ t. download 11 w p 6 (update w p (codes "downloading") 0 [] t)) _
          (λ t. download-Finishes 11 6 (omega arith) _)

    check_disk-Finishes :
        (o : Option Text) → o ≡ none → (s : Attach) → Finishes (check_disk o w p s)
    unfolding check_disk check_gpu
    check_disk-Finishes (some e) h s = absurd (cc h)
    check_disk-Finishes none h s =
        after_sleep-Finishes (check_gpu w p) _
          (λ t. after_sleep-Finishes (fetch_metadata w p) _ fetch_metadata-Finishes)

    handle-Finishes :
        (s : Attach) → is_empty p.runtime_id ≡ false → Finishes (handle_model_attach w p s)
    unfolding handle_model_attach
    handle-Finishes s h =
        if-intro Finishes (is_empty p.runtime_id)
          {x = some (some (codes "runtime_id is required"), s)} (λ e. absurd (ground (arith, e, h)))
          (λ e.
            after_sleep-Finishes (check_disk w.disk_error w p) _
              (check_disk-Finishes w.disk_error calm.disk))

  ready_profile-installs : (s : Attach) → (ready_profile w p s).installs ≡ s.installs
  unfolding ready_profile
  ready_profile-installs s = ground arith

  write_row-IsReady :
      (path : Text) (s : Attach)
      → w.db_fails s.writes ≡ false
      → IsReady p.installation_id (write_row w p (codes "ready") 100 path s).installs
  unfolding write_row update_installation
  write_row-IsReady path s f =
      if-intro (λ (r : Option StoreError × List Installation). IsReady p.installation_id r.1)
        (w.db_fails s.writes) {x = (some database, s.installs)} (λ e. absurd (ground (arith, e, f)))
        (λ e. update_row-IsReady p.installation_id path [] (w.clock s.writes) s.installs)

  update-IsReady :
      (path : Text) (s : Attach)
      → (w.has_db && not (is_empty p.installation_id)) ≡ true
      → w.db_fails s.writes ≡ false
      → IsReady p.installation_id (update w p (codes "ready") 100 path s).installs
  unfolding update
  update-IsReady path s b f =
      if-intro (λ t. IsReady p.installation_id t.installs)
        (w.has_db && not (is_empty p.installation_id)) {y = s} (λ e. write_row-IsReady path s f)
        (λ e. absurd (ground (arith, e, b)))

  mark_ready-IsReady :
      (s : Attach)
      → (w.has_db && not (is_empty p.installation_id)) ≡ true
      → w.db_fails s.writes ≡ false
      → IsReady p.installation_id (mark_ready w p s).installs
  unfolding mark_ready note_progress
  mark_ready-IsReady s b f =
      subst (IsReady p.installation_id)
        (sym (
          ready_profile-installs
            (update w p (codes "ready") 100 (serving_path w.data_dir p.model) s)))
        (update-IsReady (serving_path w.data_dir p.model) s b f)

  -- Where the context lasts, the disk can be written, a runtime is named and the store is there and does not
  -- fail, the handler of model.attach returns without an error, the job has its result, and every row of the
  -- installation is ready with its progress at 100.
  pub handle_model_attach-IsReady :
      (s : Attach)
      → ((n : ℕ) → w.sleeps n ≡ true)
      → w.disk_error ≡ none
      → w.serving_error ≡ none
      → is_empty p.runtime_id ≡ false
      → w.has_db ≡ true
      → is_empty p.installation_id ≡ false
      → ((n : ℕ) → w.db_fails n ≡ false)
      → (t : Attach) × (handle_model_attach w p s ≡ some (none, t))
        × (t.job.result ≡ some (attach_result w p))
        × IsReady p.installation_id t.installs
  unfolding report_ready set_result
  handle_model_attach-IsReady s l d v r b i f =
      let (t, e) = handle-Finishes (record { lasts = l; disk = d; serving = v }) s r in
      (
        report_ready w p t,
        e,
        refl,
        mark_ready-IsReady (report_attached w p t) (ground (arith, b, i)) (f _),
      )
