-- ===== src/Store/Models/Laws.antt =====
-- internal/store/models.go: what a workspace sees of its profiles.
use matrix_runtime.Common.{ℕ, ◌≡◌, false, ◌&&◌, List, ◌∷◌, arith, if◌then◌else◌, Text}
use matrix_runtime.Common.Strings.{eq_text}
use matrix_runtime.Store.Tables.{Faults, ok}
use matrix_runtime.Store.Models.{ModelProfile, completed_profile, create_profile, get_profile}

-- A profile that was created is found under its id in its workspace, and in no other workspace: nothing
-- else of the table changes for any reader.
pub get_profile-create_profile :
    (fails : Faults) (id : Text) (now : ℕ) (p q : ModelProfile) (rows rows' : List ModelProfile)
    → create_profile fails id now p rows ≡ (ok q, rows')
    → (w k : Text)
    → get_profile (λ n. false) w k rows' ≡ (
        if eq_text q.id k && eq_text q.workspace_id w
        then ok q
        else get_profile (λ n. false) w k rows)
unfolding create_profile get_profile completed_profile
get_profile-create_profile fails id now p q rows rows' h w k =
    let (a, b) = created in ground (arith, a, b)
  where
    created : (ok (completed_profile id now p) ≡ ok q) × (completed_profile id now p ∷ rows ≡ rows')
    created = ground (arith, h)
