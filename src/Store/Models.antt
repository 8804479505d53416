-- ===== src/Store/Models.antt =====
-- internal/store/models.go: model profiles and their installations on runtimes. Metadata is its JSON text;
-- progress is a percentage. The id that the random source gives and the clock are arguments.
pub mod Laws
use matrix_runtime.Common.{
  ℕ, Bool, true, false, ◌&&◌, List, [], ◌∷◌, map, keep, Option, none, some, find?, any, ltb,
  if◌then◌else◌, Text, codes,
}
use matrix_runtime.Common.Strings.{eq_text, is_empty}
use matrix_runtime.Common.Newest.{newest_first}
use matrix_runtime.Store.Tables.{
  Faults, StoreError, database, constraint, not_found, workspace_required, Result, ok, err, seconds,
}

pub record ModelProfile : Type 0 where
  pub id : Text
  pub workspace_id : Text
  pub source_type : Text
  pub source_uri : Text
  pub provider : Text
  pub external_id : Text
  pub display_name : Text
  pub task : Text
  pub library : Text
  pub license : Text
  pub tags : List Text
  pub metadata : Text
  pub status : Text
  pub created_at : ℕ
  pub updated_at : ℕ

-- A row of model_runtime_installations.
pub record Installation : Type 0 where
  pub id : Text
  pub workspace_id : Text
  pub model_profile_id : Text
  pub runtime_id : Text
  pub install_mode : Text
  pub serving_engine : Text
  pub status : Text
  pub progress : ℕ
  pub local_path : Text
  pub endpoint_url : Text
  pub job_id : Text
  pub created_at : ℕ
  pub updated_at : ℕ

abbrev pub or_text : Text → Text → Text
or_text other s = if is_empty s then other else s

-- What CreateProfile completes before the insertion.
unfoldable pub completed_profile : Text → ℕ → ModelProfile → ModelProfile
completed_profile id now p = record p {
  id = id;
  status = or_text (codes "profile_only") p.status;
  created_at = seconds now;
  updated_at = seconds now;
}

unfoldable pub create_profile :
    Faults → Text → ℕ → ModelProfile → List ModelProfile → Result ModelProfile × List ModelProfile
unfolding completed_profile
create_profile fails id now p rows =
    if is_empty p.workspace_id
    then (err workspace_required, rows)
    else if fails 0
    then (err database, rows)
    else if any (λ (q : ModelProfile). eq_text q.id id) rows
    then (err constraint, rows)
    else (ok (completed_profile id now p), completed_profile id now p ∷ rows)

abbrev pub or_not_found {ℓ} : {A : Type ℓ} → Option A → Result A
or_not_found none = err not_found
or_not_found (some a) = ok a

unfoldable pub get_profile : Faults → Text → Text → List ModelProfile → Result ModelProfile
get_profile fails workspace_id id rows =
    if fails 0
    then err database
    else or_not_found (find? (λ p. eq_text p.id id && eq_text p.workspace_id workspace_id) rows)

unfoldable pub list_profiles : Faults → Text → List ModelProfile → Result (List ModelProfile)
unfolding newest_first
list_profiles fails workspace_id rows =
    if fails 0
    then err database
    else ok (
        newest_first (λ (p : ModelProfile). p.created_at)
          (keep (λ (p : ModelProfile). eq_text p.workspace_id workspace_id) rows))

-- An UPDATE of the rows with an id.
abbrev pub update_profile :
    Text → (ModelProfile → ModelProfile) → List ModelProfile → List ModelProfile
update_profile id f = map (λ p. if eq_text p.id id then f p else p)

unfoldable pub set_profile_status :
    Faults → Text → Text → ℕ → List ModelProfile → Option StoreError × List ModelProfile
set_profile_status fails id status now rows = if fails 0 then (some database, rows) else (
  none,
  update_profile id (λ p. record p { status = status; updated_at = seconds now }) rows,
)

unfoldable pub create_installation :
    Faults → Text → ℕ → Installation → List Installation → Result Installation × List Installation
create_installation fails id now i rows =
    let i' : Installation = record i {
      id = id;
      status = or_text (codes "queued") i.status;
      created_at = seconds now;
      updated_at = seconds now;
    } in
    if fails 0
    then (err database, rows)
    else if any (λ (o : Installation). eq_text o.id id) rows
    then (err constraint, rows)
    else (ok i', i' ∷ rows)

abbrev pub update_row : Text → (Installation → Installation) → List Installation → List Installation
update_row id f = map (λ i. if eq_text i.id id then f i else i)

-- The SET list of UpdateInstallation: an empty path or URL leaves the old one.
unfoldable pub moved : Text → ℕ → Text → Text → ℕ → Installation → Installation
moved status progress local_path endpoint_url now i = record i {
  status = status;
  progress = progress;
  local_path = or_text i.local_path local_path;
  endpoint_url = or_text i.endpoint_url endpoint_url;
  updated_at = seconds now;
}

unfoldable pub update_installation :
    Faults
    → Text
    → Text
    → ℕ
    → Text
    → Text
    → ℕ
    → List Installation
    → Option StoreError × List Installation
unfolding moved
update_installation fails id status progress local_path endpoint_url now rows =
    if fails 0
    then (some database, rows)
    else (none, update_row id (moved status progress local_path endpoint_url now) rows)

unfoldable pub set_installation_job :
    Faults → Text → Text → ℕ → List Installation → Option StoreError × List Installation
set_installation_job fails id job_id now rows =
    if fails 0
    then (some database, rows)
    else (none, update_row id (λ i. record i { job_id = job_id; updated_at = seconds now }) rows)

-- An installation with the name and the provider of its profile.
pub record ModelInstallation : Type 0 where
  pub row : Installation
  pub model_name : Text
  pub provider : Text

abbrev pub joined : Installation → Option ModelProfile → ModelInstallation
joined i none = record { row = i; model_name = []; provider = [] }
joined i (some p) = record { row = i; model_name = p.display_name; provider = p.provider }

-- The LEFT JOIN: a profile's id is its primary key, so at most one profile is joined.
unfoldable pub list_installations :
    Faults → Text → List ModelProfile → List Installation → Result (List ModelInstallation)
unfolding newest_first
list_installations fails workspace_id profiles rows =
    if fails 0
    then err database
    else ok (
        map (λ (i : Installation). joined i (find? (λ p. eq_text p.id i.model_profile_id) profiles))
          (newest_first (λ (i : Installation). i.created_at)
            (keep (λ (i : Installation). eq_text i.workspace_id workspace_id) rows)))
