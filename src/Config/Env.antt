-- ===== src/Config/Env.antt =====
-- internal/config/env.go: defaults and environment. The environment is a function from names to
-- values, empty where a name is unset; the home directory is an option.
use matrix_runtime.Common.{
  ℕ, ◌*◌, Bool, true, false, ◌||◌, List, [], ◌∷◌, Option, none, some, leb, ◌&&◌, ◌+◌, if◌then◌else◌,
  map, Text, codes,
}
use matrix_runtime.Common.Strings.{eq_text, is_empty, trim_space}
use matrix_runtime.Common.Int.{ℤ, pos, is_positive, atoi}
use matrix_runtime.Common.Paths.{join_path}
use matrix_runtime.Config.{
  Mode, cloud_worker, customer_agent, hf_space, local_dev, mode_of, is_valid_mode, Config,
}

abbrev pub concurrency : Mode → ℤ
concurrency hf_space = pos 1
concurrency customer_agent = pos 5
concurrency cloud_worker = pos 5
concurrency m = pos 2

abbrev home_dir : Mode → Option Text → Text
home_dir local_dev (some home) =
    join_path (home ∷ codes ".matrix" ∷ codes "runtime" ∷ codes "data" ∷ [])
home_dir m h = codes "/var/lib/matrix-runtime"

-- The record of a mode that is valid already.
abbrev defaults_of : Mode → Option Text → Config
defaults_of mode home =
    let data_dir = home_dir mode home in
    record {
      mode = mode;
      runtime_id = [];
      workspace = [];
      port = pos 8080;
      data_dir = data_dir;
      max_ttl_seconds = pos 600;
      max_concurrent_jobs = concurrency mode;
      install_timeout_seconds = pos 120;
      startup_timeout_seconds = pos 45;
      rpc_timeout_seconds = pos 20;
      max_log_bytes = pos (1024 * 1024);
      job_retention_hours = pos 24;
      log_retention_hours = pos 72;
      cleanup_interval_minutes = pos 15;
      rate_limit_rpm = pos 120;
      cloud_url = codes "https://cloud.matrixhub.io";
      join_token = [];
      api_token = [];
      matrix_shell_enabled = false;
      public_url = [];
      hf_token = [];
      hf_cache_dir = join_path (data_dir ∷ codes "models" ∷ codes "huggingface" ∷ []);
      db_path = join_path (data_dir ∷ codes "matrixcloud.db" ∷ []);
      database_url = [];
      db_schema = codes "matrixcloud";
    }

unfoldable pub defaults : Mode → Option Text → Config
unfolding is_valid_mode
defaults mode home = defaults_of (if is_valid_mode mode then mode else local_dev) home

unfoldable pub first_non_empty : List Text → Text
first_non_empty [] = []
first_non_empty (v ∷ vals) = let rest = first_non_empty vals in if is_empty v then rest else v

abbrev lower_ascii : ℕ → ℕ
lower_ascii c = if leb b'A' c && leb c b'Z' then c + 32 else c

-- Outside ASCII, `strings.ToLower` gives an ASCII letter only for the Kelvin sign and the dotted
-- capital I, and no text that is compared with here has a k or an i.
unfoldable pub parse_bool : Text → Bool
parse_bool s =
    let t = map lower_ascii (trim_space s) in
    eq_text t (codes "1")
    || eq_text t (codes "true")
    || eq_text t (codes "yes")
    || eq_text t (codes "on")
    || eq_text t (codes "enabled")

abbrev or_int : Option ℤ → ℤ → ℤ
or_int none old = old
or_int (some n) old = n

abbrev pub or_positive : Option ℤ → ℤ → ℤ
or_positive none old = old
or_positive (some n) old = if is_positive n then n else old

-- `first_non_empty(getenv(name), old)`
abbrev or_text : Text → Text → Text
or_text v old = if is_empty v then old else v

module _ (getenv : Text → Text) where
  unfoldable pub env_int : Text → Option ℤ
  unfolding atoi
  env_int key = let v = getenv key in if is_empty v then none else atoi v

  -- The mode that FromEnv asks for, before Defaults has looked at it.
  unfoldable pub requested_mode : Text → Mode
  unfolding mode_of first_non_empty
  requested_mode override =
      mode_of
        (first_non_empty (override ∷ getenv (codes "MATRIX_RUNTIME_MODE") ∷ codes "local-dev" ∷ []))

  unfoldable pub shell_override : Text
  unfolding first_non_empty
  shell_override = first_non_empty (
      getenv (codes "MATRIX_RUNTIME_MATRIXSHELL_ENABLED")
      ∷ getenv (codes "MATRIX_SHELL_ENABLED")
      ∷ [])

  abbrev is_local : Mode → Bool
  is_local local_dev = true
  is_local m = false

  unfoldable pub from_env : Text → Option Text → Config
  unfolding requested_mode env_int first_non_empty
  from_env override home =
      let mode = requested_mode override in
      let c = defaults mode home in
      let port =
        first_non_empty (getenv (codes "MATRIX_RUNTIME_PORT") ∷ getenv (codes "PORT") ∷ []) in
      let dir = getenv (codes "MATRIX_RUNTIME_DATA_DIR") in
      let cache_dir = join_path (dir ∷ codes "models" ∷ codes "huggingface" ∷ []) in
      let db_path = join_path (dir ∷ codes "matrixcloud.db" ∷ []) in
      record c {
        port = if is_empty port then c.port else or_int (atoi port) c.port;
        data_dir = or_text dir c.data_dir;
        db_path =
            or_text (getenv (codes "MATRIX_RUNTIME_DB_PATH"))
              (if is_empty dir then c.db_path else db_path);
        max_ttl_seconds =
            or_positive (env_int (codes "MATRIX_RUNTIME_MAX_TTL_SECONDS")) c.max_ttl_seconds;
        max_concurrent_jobs =
            or_positive (env_int (codes "MATRIX_RUNTIME_MAX_CONCURRENT_JOBS"))
              c.max_concurrent_jobs;
        runtime_id = or_text (getenv (codes "MATRIX_RUNTIME_ID")) c.runtime_id;
        workspace = or_text (getenv (codes "MATRIX_RUNTIME_WORKSPACE")) c.workspace;
        cloud_url = or_text (getenv (codes "MATRIX_CLOUD_URL")) c.cloud_url;
        join_token = or_text (getenv (codes "MATRIX_RUNTIME_JOIN_TOKEN")) c.join_token;
        api_token = or_text (getenv (codes "MATRIX_RUNTIME_API_TOKEN")) c.api_token;
        hf_token = or_text (getenv (codes "HF_TOKEN")) c.hf_token;
        hf_cache_dir =
            or_text (getenv (codes "MATRIX_RUNTIME_HF_CACHE_DIR"))
              (if is_empty dir then c.hf_cache_dir else cache_dir);
        database_url = first_non_empty (
            getenv (codes "MATRIXCLOUD_DATABASE_URL")
            ∷ getenv (codes "MATRIX_RUNTIME_DB_URL")
            ∷ getenv (codes "DATABASE_URL")
            ∷ []);
        db_schema =
            first_non_empty
              (getenv (codes "MATRIXCLOUD_DB_SCHEMA") ∷ c.db_schema ∷ codes "matrixcloud" ∷ []);
        public_url = first_non_empty (
            getenv (codes "MATRIX_RUNTIME_PUBLIC_URL") ∷ getenv (codes "MATRIXCLOUD_APP_URL") ∷ []);
        job_retention_hours =
            or_int (env_int (codes "MATRIX_RUNTIME_JOB_RETENTION_HOURS")) c.job_retention_hours;
        log_retention_hours =
            or_int (env_int (codes "MATRIX_RUNTIME_LOG_RETENTION_HOURS")) c.log_retention_hours;
        cleanup_interval_minutes =
            or_int (env_int (codes "MATRIX_RUNTIME_CLEANUP_INTERVAL_MINUTES"))
              c.cleanup_interval_minutes;
        rate_limit_rpm = or_int (env_int (codes "MATRIX_RUNTIME_RATE_LIMIT_RPM")) c.rate_limit_rpm;
        matrix_shell_enabled =
            if is_empty shell_override then is_local mode else parse_bool shell_override;
      }
