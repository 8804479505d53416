-- ===== src/Tests/Requests.antt =====
-- The rate limit and the authentication of the API.
use Prim.Native.Nat.{min}
use matrix_runtime.Common.{ℕ, ◌≡◌, ◌↔◌, ◌⊎◌, refl, arith, List, [], ◌∷◌, none, Text, codes}
use matrix_runtime.Common.Strings.{has_prefix}
use matrix_runtime.Common.Dict.{lookup}
use matrix_runtime.Config.{Config, local_dev, cloud_worker}
use matrix_runtime.Config.Env.{from_env}
use matrix_runtime.Api.RateLimit.{new_limiter}
use matrix_runtime.Api.RateLimit.Quota.{Request, permitted, made, window_quota}
use matrix_runtime.Api.AuthGate.{with_auth, pass, bearer}
use matrix_runtime.Api.AuthGate.Exact.{IsOpen, IsCredential, with_auth_exact}

abbrev client : Text
client = codes "10.0.0.1"

abbrev sent : Text → ℕ → Request
sent key now = record { key = key; now = now; later = now }

abbrev rest : List Request
rest = sent (codes "10.0.0.2") 5 ∷ sent client 6 ∷ sent client 7 ∷ []

window_quota_example :
    permitted client (sent client 0 ∷ rest) (new_limiter 2)
    ≡ min (new_limiter 2).limit (made client (sent client 0 ∷ rest))
unfolding new_limiter lookup
window_quota_example =
    window_quota client (sent client 0) rest (new_limiter 2) tt (ground arith) refl tt
      (ground arith)

abbrev cloud : Config
cloud = record (from_env (λ key. []) [] none) { mode = cloud_worker; api_token = [] }

with_auth_exact_example : (with_auth cloud none (codes "/v1/jobs") (codes "Bearer x") ≡ pass) ↔ (
    IsOpen (codes "/v1/jobs")
    ⊎ IsCredential cloud none (bearer (codes "Bearer x"))
    ⊎ ((cloud.api_token ≡ []) × (cloud.mode ≡ local_dev)))
with_auth_exact_example = with_auth_exact cloud none (codes "/v1/jobs") (codes "Bearer x")

shut : ¬ IsOpen (codes "/v1/jobs")
unfolding has_prefix
shut h = ground arith
