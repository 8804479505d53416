-- ===== src/Config.antt =====
-- internal/config: the modes, the configuration, and how it is read from the environment.
pub mod Env
pub mod Safe
use matrix_runtime.Common.{
  ℕ, ◌*◌, Bool, true, false, not, ◌||◌, List, [], ◌∷◌, ◌++◌, map, Option, none, some, ◌==◌,
  if◌then◌else◌, Text, codes,
}
use matrix_runtime.Common.Strings.{eq_text, is_empty}
use matrix_runtime.Common.Int.{ℤ, pos, is_positive, lt_int}

-- A Go string type: the four modes, and any other text.
pub data Mode : Type 0 where
  cloud_worker customer_agent hf_space local_dev : Mode
  other : Text → Mode

-- The conversion of a text to a mode, and back.
unfoldable pub mode_of : Text → Mode
mode_of t =
    if eq_text t (codes "cloud-worker")
    then cloud_worker
    else if eq_text t (codes "customer-agent")
    then customer_agent
    else if eq_text t (codes "hf-space")
    then hf_space
    else if eq_text t (codes "local-dev")
    then local_dev
    else other t

unfoldable pub mode_text : Mode → Text
mode_text cloud_worker = codes "cloud-worker"
mode_text customer_agent = codes "customer-agent"
mode_text hf_space = codes "hf-space"
mode_text local_dev = codes "local-dev"
mode_text (other t) = t

unfoldable pub is_valid_mode : Mode → Bool
is_valid_mode cloud_worker = true
is_valid_mode customer_agent = true
is_valid_mode hf_space = true
is_valid_mode local_dev = true
is_valid_mode (other t) = false

pub record Config : Type 0 where
  pub mode : Mode
  pub runtime_id : Text
  pub workspace : Text
  pub port : ℤ
  pub data_dir : Text
  pub max_ttl_seconds : ℤ
  pub max_concurrent_jobs : ℤ
  pub install_timeout_seconds : ℤ
  pub startup_timeout_seconds : ℤ
  pub rpc_timeout_seconds : ℤ
  pub max_log_bytes : ℤ
  pub job_retention_hours : ℤ
  pub log_retention_hours : ℤ
  pub cleanup_interval_minutes : ℤ
  pub rate_limit_rpm : ℤ
  pub cloud_url : Text
  pub join_token : Text
  pub api_token : Text
  pub matrix_shell_enabled : Bool
  pub public_url : Text
  pub hf_token : Text
  pub hf_cache_dir : Text
  pub db_path : Text
  pub database_url : Text
  pub db_schema : Text

abbrev underscored : ℕ → ℕ
underscored c = if c == b'-' then b'_' else c

abbrev default_runtime_id : Mode → Text
default_runtime_id local_dev = codes "rt_local"
default_runtime_id hf_space = codes "rt_hf_space"
default_runtime_id m = codes "rt_" ++ map underscored (mode_text m)

unfoldable pub effective_runtime_id : Config → Text
unfolding mode_text
effective_runtime_id c = if is_empty c.runtime_id then default_runtime_id c.mode else c.runtime_id

abbrev pub production : Mode → Bool
production local_dev = false
production m = true

unfoldable pub is_production : Config → Bool
is_production c = production c.mode

pub data ConfigError : Type 0 where
  invalid_mode : Mode → ConfigError
  invalid_port : ℤ → ConfigError
  ttl_not_positive concurrency_not_positive : ConfigError

unfoldable pub validate : Config → Option ConfigError
unfolding is_valid_mode
validate c =
    if not (is_valid_mode c.mode)
    then some (invalid_mode c.mode)
    else if not (is_positive c.port) || lt_int (pos 65535) c.port
    then some (invalid_port c.port)
    else if not (is_positive c.max_ttl_seconds)
    then some ttl_not_positive
    else if not (is_positive c.max_concurrent_jobs)
    then some concurrency_not_positive
    else none
