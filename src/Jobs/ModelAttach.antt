-- ===== src/Jobs/ModelAttach.antt =====
-- internal/jobs/model_attach.go: the handler that brings a model onto a runtime. What it waits for, the random
-- increments, the clock, the disk and the failures of the store are a `World`; the sleeps and the writes to
-- the store are numbered in the order in which they are made. The content of the serving profile is left out.
pub mod Ends
pub mod Ready
pub mod Safety
use matrix_runtime.Common.{
  ℕ, zero, suc, ◌+◌, Bool, true, false, not, ◌&&◌, ◌||◌, List, [], ◌∷◌, ◌++◌, Option, none, some,
  ◌==◌, ltb, if◌then◌else◌, Text, codes,
}
use matrix_runtime.Common.Strings.{eq_text, is_empty, has_prefix, trim_prefix}
use matrix_runtime.Common.Int.{itoa}
use matrix_runtime.Common.Paths.{join_path}
use matrix_runtime.Logs.Bus.{EventStatus, Datum}
use matrix_runtime.Jobs.Job.{Job, emit, set_result}
use matrix_runtime.Store.Models.{
  ModelProfile, Installation, update_installation, set_profile_status,
}

pub record AttachPayload : Type 0 where
  pub installation_id : Text
  pub profile_id : Text
  pub model : Text
  pub provider : Text
  pub runtime_id : Text
  pub install_mode : Text
  pub serving_engine : Text

-- `sleeps n` says whether the n-th sleep passes before the context is done; `metadata` gives the message on
-- what models.Inspect finds or fails with, and `json` is json.Marshal.
pub record World : Type 0 where
  pub sleeps : ℕ → Bool
  pub rands : ℕ → ℕ
  pub has_db : Bool
  pub db_fails : ℕ → Bool
  pub clock : ℕ → ℕ
  pub data_dir : Text
  pub disk_error : Option Text
  pub serving_error : Option Text
  pub metadata : Text → Text
  pub json : List (Text × Text) → Text

-- What the handler changes.
pub record Attach : Type 0 where
  pub job : Job
  pub installs : List Installation
  pub profiles : List ModelProfile
  pub slept : ℕ
  pub writes : ℕ

-- The error that the handler returns, or none; nothing where the fuel of the download is not enough.
abbrev pub Outcome : Type 0
Outcome = Option (Option Text × Attach)

unfoldable pub is_hf : AttachPayload → Bool
unfolding eq_text has_prefix
is_hf p = eq_text p.provider (codes "Hugging Face") || has_prefix p.model (codes "hf:")

abbrev pub or_dash : Text → Text
or_dash s = if is_empty s then codes "—" else s

-- The replacer of safeName, one code point at a time.
abbrev pub safe_char : ℕ → Text
safe_char c = if c == b'/' || c == b':' then codes "--" else if c == b' ' then codes "_" else c ∷ []

unfoldable pub safe_chars : Text → Text
safe_chars [] = []
safe_chars (c ∷ s) = safe_char c ++ safe_chars s

unfoldable pub safe_name : Text → Text
unfolding safe_chars
safe_name s = if is_empty (safe_chars s) then codes "model" else safe_chars s

unfoldable pub serving_path : Text → Text → Text
unfolding safe_name join_path
serving_path data_dir model = join_path (
    join_path (join_path (data_dir ∷ codes "models" ∷ []) ∷ codes "serving" ∷ [])
    ∷ (safe_name model ++ codes ".json")
    ∷ [])

-- `emit` with a negative progress, and with one.
unfoldable pub note : Text → EventStatus → Text → Attach → Attach
unfolding emit
note step status message s = record s { job = emit step status message [] s.job }

unfoldable pub note_progress : Text → EventStatus → Text → ℕ → Attach → Attach
unfolding emit
note_progress step status message pct s = record s {
  job = emit step status message ((codes "progress", Datum.number pct) ∷ []) s.job;
}

unfoldable pub write_row : World → AttachPayload → Text → ℕ → Text → Attach → Attach
unfolding update_installation
write_row w p status progress path s = record s {
  installs =
      (update_installation (λ n. w.db_fails s.writes) p.installation_id status progress path []
        (w.clock s.writes) s.installs).1;
  writes = suc s.writes;
}

-- `upd`; its error is dropped.
unfoldable pub update : World → AttachPayload → Text → ℕ → Text → Attach → Attach
unfolding write_row
update w p status progress path s =
    if w.has_db && not (is_empty p.installation_id) then write_row w p status progress path s else s

unfoldable pub ready_profile : World → AttachPayload → Attach → Attach
unfolding set_profile_status
ready_profile w p s =
    if w.has_db && not (is_empty p.profile_id)
    then record s {
      profiles =
          (set_profile_status (λ n. w.db_fails s.writes) p.profile_id (codes "ready")
            (w.clock s.writes) s.profiles).1;
      writes = suc s.writes;
    }
    else s

-- `if !sleepCtx(...) { return nil }`, and what follows.
abbrev pub after_sleep : World → (Attach → Outcome) → Attach → Outcome
after_sleep w k s =
    if w.sleeps s.slept
    then k (record s { slept = suc s.slept })
    else some (none, record s { slept = suc s.slept })

-- 8: attached.
unfoldable pub report_attached : World → AttachPayload → Attach → Attach
unfolding note update serving_path
report_attached w p s =
    note (codes "attached") EventStatus.ok (codes "attached to " ++ p.runtime_id)
      (update w p (codes "attached") 100 (serving_path w.data_dir p.model) s)

-- 9: ready.
unfoldable pub mark_ready : World → AttachPayload → Attach → Attach
unfolding note_progress update ready_profile serving_path
mark_ready w p s =
    note_progress (codes "ready") EventStatus.ok (codes "model ready on " ++ p.runtime_id) 100
      (ready_profile w p (update w p (codes "ready") 100 (serving_path w.data_dir p.model) s))

unfoldable pub attach_result : World → AttachPayload → Text
unfolding serving_path
attach_result w p = w.json (
    (codes "installation_id", p.installation_id)
    ∷ (codes "profile_id", p.profile_id)
    ∷ (codes "runtime", p.runtime_id)
    ∷ (codes "serving_engine", p.serving_engine)
    ∷ (codes "status", codes "ready")
    ∷ (codes "local_path", serving_path w.data_dir p.model)
    ∷ [])

unfoldable pub report_ready : World → AttachPayload → Attach → Attach
unfolding report_attached mark_ready attach_result set_result
report_ready w p s =
    let t = mark_ready w p (report_attached w p s) in
    record t { job = set_result (attach_result w p) t.job }

-- 6 and 7: verifying, and the serving profile.
unfoldable pub finish_serving : Option Text → World → AttachPayload → Attach → Outcome
unfolding note report_ready
finish_serving (some e) w p s = some (some (codes "create serving profile: " ++ e), s)
finish_serving none w p s =
    after_sleep w (λ t. some (none, report_ready w p t))
      (note (codes "creating_profile") EventStatus.ok
        (codes "serving profile (" ++ or_dash p.serving_engine ++ codes ") created") s)

unfoldable pub verify : World → AttachPayload → Attach → Outcome
unfolding note finish_serving
verify w p s =
    after_sleep w (finish_serving w.serving_error w p)
      (note (codes "verifying") EventStatus.ok (codes "checksums verified · safetensors") s)

abbrev pub capped : ℕ → ℕ
capped pct = if ltb 100 pct then 100 else pct

-- 5: one round of the download, and its loop on fuel.
unfoldable pub report_download : World → AttachPayload → ℕ → Attach → Attach
unfolding note_progress update itoa
report_download w p pct s = update w p (codes "downloading") pct [] (
    note_progress (codes "downloading") EventStatus.running
      (codes "downloading weights " ++ itoa pct ++ codes "%") pct s)

unfoldable pub download : ℕ → World → AttachPayload → ℕ → Attach → Outcome
unfolding report_download verify
download zero w p pct s = if ltb pct 100 then none else verify w p s
download (suc fuel) w p pct s =
    let pct' = capped (pct + (9 + w.rands s.slept)) in
    let round = after_sleep w (download fuel w p pct') (report_download w p pct' s) in
    if ltb pct 100 then round else verify w p s

unfoldable pub hf_model : AttachPayload → Text
unfolding has_prefix trim_prefix
hf_model p =
    if has_prefix p.model (codes "hf:")
    then p.model
    else codes "hf:" ++ trim_prefix p.model (codes "hf:")

-- 4: the metadata. Eleven rounds of at least 9 lead from 6 to 100.
unfoldable pub fetch_metadata : World → AttachPayload → Attach → Outcome
unfolding note update download is_hf hf_model
fetch_metadata w p s =
    after_sleep w (λ t. download 11 w p 6 (update w p (codes "downloading") 0 [] t))
      (note (codes "fetching_metadata") EventStatus.ok
        (if is_hf p
          then w.metadata (hf_model p)
          else codes "metadata resolved from " ++ or_dash p.provider)
        s)

-- 2 and 3: the disk and the GPU.
unfoldable pub check_gpu : World → AttachPayload → Attach → Outcome
unfolding note fetch_metadata
check_gpu w p s =
    after_sleep w (fetch_metadata w p)
      (note (codes "checking_gpu") EventStatus.ok (codes "gpu memory check passed (advisory)") s)

unfoldable pub check_disk : Option Text → World → AttachPayload → Attach → Outcome
unfolding note check_gpu
check_disk (some e) w p s = some (
  some (codes "disk check failed: " ++ e),
  note (codes "checking_disk") EventStatus.error (codes "disk not writable: " ++ e) s,
)
check_disk none w p s =
    after_sleep w (check_gpu w p)
      (note (codes "checking_disk") EventStatus.ok (codes "disk: data directory writable") s)

-- The handler, once the payload is decoded.
unfoldable pub handle_model_attach : World → AttachPayload → Attach → Outcome
unfolding note update check_disk
handle_model_attach w p s =
    if is_empty p.runtime_id
    then some (some (codes "runtime_id is required"), s)
    else after_sleep w (check_disk w.disk_error w p) (
        update w p (codes "checking") 1 [] (
          note (codes "checking_runtime") EventStatus.ok
            (codes "runtime " ++ p.runtime_id ++ codes " reachable") s))
