-- ===== src/Api/AuthGate.antt =====
-- api/middleware_auth.go: who may pass without credentials, and which credentials count. The session
-- table is a function from tokens to whether UserBySession finds a user; none stands for a server
-- without a store.
pub mod Exact
use matrix_runtime.Common.{
  Bool, true, false, not, ◌&&◌, ◌||◌, List, [], ◌∷◌, Option, none, some, if◌then◌else◌, Text, codes,
}
use matrix_runtime.Common.Strings.{eq_text, is_empty, has_prefix, trim_prefix, trim_space}
use matrix_runtime.Config.{Config, is_production}

unfoldable pub always_open : Text → Bool
always_open path =
    eq_text path (codes "/v1/health")
    || eq_text path (codes "/v1/ready")
    || eq_text path (codes "/v1/version")
    || eq_text path (codes "/v1/capabilities")

-- The token of an Authorization header.
unfoldable pub bearer : Text → Text
bearer header = trim_space (trim_prefix header (codes "Bearer "))

pub data Access : Type 0 where
  pass : Access
  missing_or_invalid : Access
  required : Access

abbrev pub has_session : Option (Text → Bool) → Text → Bool
has_session none token = false
has_session (some valid) token = not (is_empty token) && valid token

unfoldable pub with_auth : Config → Option (Text → Bool) → Text → Text → Access
unfolding always_open is_production
with_auth cfg sessions path header =
    let token = bearer header in
    if always_open path || not (has_prefix path (codes "/v1/"))
    then pass
    else if has_prefix path (codes "/v1/auth/")
        || eq_text path (codes "/v1/cloud/runtimes/register")
        || eq_text path (codes "/v1/cloud/runtimes/heartbeat")
    then pass
    else if has_session sessions token
    then pass
    else if not (is_empty cfg.api_token)
    then (if eq_text token cfg.api_token then pass else missing_or_invalid)
    else if is_production cfg
    then required
    else pass
