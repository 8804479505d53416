-- ===== src/Jobs/Job.antt =====
-- internal/jobs/types.go and mcp/sandbox.go: a job, its status and its MCP session. A job's mutex
-- makes each setter one step.
pub mod Events
use matrix_runtime.Common.{ℕ, Bool, true, false, List, [], ◌∷◌, Option, none, some, Text, codes}
use matrix_runtime.Common.Int.{ℤ}
use matrix_runtime.Logs.Bus.{Bus, Event, EventStatus, Datum, publish, close_bus}

pub data Status : Type 0 where
  queued running complete error expired cancelled : Status

-- The case lists of purgeTerminalBefore and of Cancel.
unfoldable pub is_terminal : Status → Bool
is_terminal Status.complete = true
is_terminal Status.error = true
is_terminal Status.expired = true
is_terminal Status.cancelled = true
is_terminal Status.queued = false
is_terminal Status.running = false

pub record Tool : Type 0 where
  pub name : Text
  pub description : Text
  pub input_schema : Text

-- The server process behind a session is outside the model, but for whether it was terminated.
pub record Session : Type 0 where
  pub tools : List Tool
  pub ready : Bool
  pub closed : Bool

-- What Bootstrap caches once the handshake has succeeded.
unfoldable pub bootstrap : List Tool → Session → Session
bootstrap tools s = record s { tools = tools; ready = true }

unfoldable pub close_session : Session → Session
close_session s = record s { closed = true }

-- Instants and durations are in nanoseconds. The result is kept as its JSON text.
pub record Job : Type 0 where
  pub id : Text
  pub type : Text
  pub payload : Text
  pub created_at : ℕ
  pub expires_at : ℤ
  pub ttl : ℤ
  pub status : Status
  pub result : Option Text
  pub err_msg : Text
  pub session : Option Session
  pub bus : Bus

-- The bus never panics (Logs.Bus.Safety), so the first case is never taken.
abbrev pub kept_bus : Bus → Option Bus → Bus
kept_bus b none = b
kept_bus b (some b') = b'

unfoldable pub emit : Text → EventStatus → Text → List (Text × Datum) → Job → Job
emit step status message fields j =
    let e : Event = record { step = step; status = status; message = message; fields = fields } in
    record j { bus = kept_bus j.bus (publish e j.bus) }

unfoldable pub close_events : Job → Job
close_events j = record j { bus = kept_bus j.bus (close_bus j.bus) }

unfoldable pub set_status : Status → Job → Job
set_status s j = record j { status = s }

unfoldable pub set_result : Text → Job → Job
set_result r j = record j { result = some r }

unfoldable pub set_error : Text → Job → Job
set_error msg j = record j { err_msg = msg }

unfoldable pub set_session : Session → Job → Job
set_session s j = record j { session = some s }

-- The JSON view of a job. Its times are formatted by the API.
pub record Snapshot : Type 0 where
  pub job_id : Text
  pub type : Text
  pub status : Status
  pub created_at : ℕ
  pub expires_at : ℤ
  pub result : Option Text
  pub error : Text

unfoldable pub snapshot : Job → Snapshot
snapshot j = record {
  job_id = j.id;
  type = j.type;
  status = j.status;
  created_at = j.created_at;
  expires_at = j.expires_at;
  result = j.result;
  error = j.err_msg;
}
