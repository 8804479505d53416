-- ===== src/Tests/Configs.antt =====
-- Environments of internal/config.
use matrix_runtime.Common.{◌≡◌, ◌||◌, not, [], none, some, if◌then◌else◌, Text, codes}
use matrix_runtime.Common.Strings.{eq_text}
use matrix_runtime.Common.Int.{pos, is_positive, lt_int}
use matrix_runtime.Config.{validate, invalid_port}
use matrix_runtime.Config.Env.{from_env}
use matrix_runtime.Config.Safe.{validate-from_env}

-- MATRIX_RUNTIME_MODE=staging, MATRIX_RUNTIME_PORT=70000, and MatrixShell switched on.
abbrev staging : Text → Text
unfolding eq_text
staging key =
    if eq_text key (codes "MATRIX_RUNTIME_MODE")
    then codes "staging"
    else if eq_text key (codes "MATRIX_RUNTIME_PORT")
    then codes "70000"
    else if eq_text key (codes "MATRIX_SHELL_ENABLED")
    then codes "true"
    else []

validate-from_env_example :
    let c = from_env staging [] none in
    validate c ≡ (
      if not (is_positive c.port) || lt_int (pos 65535) c.port
      then some (invalid_port c.port)
      else none)
validate-from_env_example = validate-from_env staging [] none
