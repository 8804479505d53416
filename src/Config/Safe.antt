-- ===== src/Config/Safe.antt =====
-- What the environment can and cannot bring about.
use matrix_runtime.Common.{
  [], ◌≡◌, refl, ◌⊎◌, true, not, ◌||◌, Option, none, some, arith, if◌then◌else◌, Text, codes,
}
use matrix_runtime.Common.Int.{ℤ, pos, is_positive, lt_int}
use matrix_runtime.Config.{
  Mode, cloud_worker, customer_agent, hf_space, local_dev, other, is_valid_mode, validate,
  invalid_port,
}
use matrix_runtime.Config.Env.{
  from_env, requested_mode, defaults, parse_bool, shell_override, or_positive, concurrency, env_int,
}

or_positive-is_positive :
    (o : Option ℤ) (old : ℤ) → is_positive old ≡ true → is_positive (or_positive o old) ≡ true
or_positive-is_positive none old h = h
or_positive-is_positive (some n) old h = ground arith

concurrency-is_positive : (m : Mode) → is_positive (concurrency m) ≡ true
concurrency-is_positive cloud_worker = refl
concurrency-is_positive customer_agent = refl
concurrency-is_positive hf_space = refl
concurrency-is_positive local_dev = refl
concurrency-is_positive (other t) = refl

-- The mode that a configuration ends up with: any text that names no mode selects local-dev.
abbrev pub settled : Mode → Mode
settled m = if is_valid_mode m then m else local_dev

settled-is_valid_mode : (m : Mode) → is_valid_mode (settled m) ≡ true
unfolding is_valid_mode
settled-is_valid_mode m = ground arith

module _ (getenv : Text → Text) (override : Text) (home : Option Text) where
  mode-from_env : (from_env getenv override home).mode ≡ settled (requested_mode getenv override)
  unfolding from_env defaults
  mode-from_env = refl

  ttl-from_env : is_positive (from_env getenv override home).max_ttl_seconds ≡ true
  unfolding from_env defaults
  ttl-from_env =
      or_positive-is_positive (env_int getenv (codes "MATRIX_RUNTIME_MAX_TTL_SECONDS")) (pos 600)
        refl

  concurrency-from_env : is_positive (from_env getenv override home).max_concurrent_jobs ≡ true
  unfolding from_env defaults
  concurrency-from_env =
      or_positive-is_positive (env_int getenv (codes "MATRIX_RUNTIME_MAX_CONCURRENT_JOBS"))
        (concurrency (settled (requested_mode getenv override)))
        (concurrency-is_positive (settled (requested_mode getenv override)))

-- Whatever the environment, Validate accepts the configuration read from it exactly when the port is
-- in 1..65535, and its only complaint is the port: a mode that does not exist is never refused.
pub validate-from_env :
    (getenv : Text → Text) (override : Text) (home : Option Text)
    → let c = from_env getenv override home in
      validate c ≡ (
        if not (is_positive c.port) || lt_int (pos 65535) c.port
        then some (invalid_port c.port)
        else none)
unfolding validate
validate-from_env getenv override home =
    let c = from_env getenv override home in
    ground (
      arith,
      mode-from_env getenv override home,
      ttl-from_env getenv override home,
      concurrency-from_env getenv override home,
      settled-is_valid_mode (requested_mode getenv override),
    )

-- MatrixShell is enabled only where local-dev was asked for or the environment enables it by name,
-- and never where the override is set to anything but a true value.
pub shell_is_opt_in :
    (getenv : Text → Text) (override : Text) (home : Option Text)
    → (from_env getenv override home).matrix_shell_enabled ≡ true
    → ((requested_mode getenv override ≡ local_dev) × (shell_override getenv ≡ []))
      ⊎ (parse_bool (shell_override getenv) ≡ true)
unfolding from_env
shell_is_opt_in getenv override home h = ground arith
