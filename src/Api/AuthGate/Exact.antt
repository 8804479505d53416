-- ===== src/Api/AuthGate/Exact.antt =====
-- Exactly which requests the gate lets through.
use matrix_runtime.Common.{
  ◌≡◌, ◌≢◌, ◌↔◌, refl, ◌⊎◌, Bool, true, false, [], ◌∷◌, Option, arith, Text, codes,
}
use matrix_runtime.Common.Strings.{eq_text_iff, is_empty, has_prefix}
use matrix_runtime.Config.{
  Config, Mode, cloud_worker, customer_agent, hf_space, local_dev, other, production, is_production,
}
use matrix_runtime.Api.AuthGate.{always_open, bearer, pass, required, with_auth, has_session}

-- The paths that need no credentials.
abbrev pub IsOpen : Text → Type 0
IsOpen path =
    (path ≡ codes "/v1/health")
    ⊎ (path ≡ codes "/v1/ready")
    ⊎ (path ≡ codes "/v1/version")
    ⊎ (path ≡ codes "/v1/capabilities")
    ⊎ (path ≡ codes "/v1/cloud/runtimes/register")
    ⊎ (path ≡ codes "/v1/cloud/runtimes/heartbeat")
    ⊎ (has_prefix path (codes "/v1/") ≡ false)
    ⊎ (has_prefix path (codes "/v1/auth/") ≡ true)

-- A token of a live session, or the operator's token.
abbrev pub IsCredential : Config → Option (Text → Bool) → Text → Type 0
IsCredential cfg sessions token =
    (has_session sessions token ≡ true)
    ⊎ ((token ≡ cfg.api_token) × (is_empty cfg.api_token ≡ false))

is_empty_iff : (t : Text) → (is_empty t ≡ true) ↔ (t ≡ [])
is_empty_iff [] = (λ e. refl, λ e. refl)
is_empty_iff (c ∷ t) = (λ e. absurd (cc e), λ e. absurd (cc e))

production_iff : (m : Mode) → (production m ≡ false) ↔ (m ≡ local_dev)
production_iff cloud_worker = (λ e. absurd (cc e), λ e. absurd (cc e))
production_iff customer_agent = (λ e. absurd (cc e), λ e. absurd (cc e))
production_iff hf_space = (λ e. absurd (cc e), λ e. absurd (cc e))
production_iff local_dev = (λ e. refl, λ e. refl)
production_iff (other t) = (λ e. absurd (cc e), λ e. absurd (cc e))

is_production_iff : (cfg : Config) → (is_production cfg ≡ false) ↔ (cfg.mode ≡ local_dev)
unfolding is_production
is_production_iff cfg = production_iff cfg.mode

-- A request passes exactly when its path is open, or it has a credential, or the runtime is a
-- local-dev one without an operator's token.
pub with_auth_exact :
    (cfg : Config) (sessions : Option (Text → Bool)) (path header : Text)
    → (with_auth cfg sessions path header ≡ pass) ↔ (
        IsOpen path
        ⊎ IsCredential cfg sessions (bearer header)
        ⊎ ((cfg.api_token ≡ []) × (cfg.mode ≡ local_dev)))
unfolding with_auth always_open
with_auth_exact cfg sessions path header = ground (
  arith,
  eq_text_iff path (codes "/v1/health"),
  eq_text_iff path (codes "/v1/ready"),
  eq_text_iff path (codes "/v1/version"),
  eq_text_iff path (codes "/v1/capabilities"),
  eq_text_iff path (codes "/v1/cloud/runtimes/register"),
  eq_text_iff path (codes "/v1/cloud/runtimes/heartbeat"),
  eq_text_iff (bearer header) cfg.api_token,
  is_empty_iff cfg.api_token,
  is_production_iff cfg,
)

-- Without an operator's token a production runtime still turns away every request that has neither
-- an open path nor a session.
pub production_fails_closed :
    (cfg : Config) (sessions : Option (Text → Bool)) (path header : Text)
    → ¬ IsOpen path
    → cfg.api_token ≡ []
    → cfg.mode ≢ local_dev
    → has_session sessions (bearer header) ≡ false
    → with_auth cfg sessions path header ≡ required
unfolding with_auth always_open
production_fails_closed cfg sessions path header shut none_set prod no_session = ground (
  arith,
  eq_text_iff path (codes "/v1/health"),
  eq_text_iff path (codes "/v1/ready"),
  eq_text_iff path (codes "/v1/version"),
  eq_text_iff path (codes "/v1/capabilities"),
  eq_text_iff path (codes "/v1/cloud/runtimes/register"),
  eq_text_iff path (codes "/v1/cloud/runtimes/heartbeat"),
  is_empty_iff cfg.api_token,
  is_production_iff cfg,
)
