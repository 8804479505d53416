-- ===== src/Tests/Runtimes.antt =====
-- A runtime that registers, sends a heartbeat and falls silent.
use matrix_runtime.Common.{
  ℕ, ◌+◌, ◌≡◌, refl, ◌&&◌, List, [], ◌∷◌, none, some, count, leb, if◌then◌else◌, Text, codes,
}
use matrix_runtime.Common.Strings.{eq_text}
use matrix_runtime.Common.Int.{pos}
use matrix_runtime.Common.Dict.{Dict, lookup}
use matrix_runtime.Store.Tables.{ok, seconds}
use matrix_runtime.Store.Models.{or_text}
use matrix_runtime.Store.Runtimes.{
  Runtime, RuntimeRow, completed_runtime, register_runtime, heartbeat_runtime, list_runtimes,
}
use matrix_runtime.Store.Runtimes.Shown.{shown_status, heartbeat_is_shown}
use matrix_runtime.Store.Usage.{UsageEvent, metered, record_usage, or_zero, usage_since}
use matrix_runtime.Store.Usage.Metering.{used, usage_since-record_usage}
use matrix_runtime.Tests.Accounts.{up}

abbrev runtime : Runtime
runtime = record {
  id = [];
  workspace_id = codes "ws_1";
  name = codes "lab";
  mode = codes "customer-agent";
  kind = codes "local";
  url = [];
  hf_space = [];
  region = [];
  caps = [];
  status = [];
  version = [];
  last_seen_at = none;
  created_at = 0;
}

abbrev token : Text
token = codes "mxtk_1"

heartbeat_is_shown_example :
    let rows = (register_runtime (λ b. b) up (some token) (codes "rt_1") 0 runtime []).1 in
    (r : Runtime) × (beat_rows : List RuntimeRow) × (vs : List Runtime) × (heartbeat_runtime
        (λ b. b)
        up
        token
        (codes "idle")
        none
        7000000000
        rows
      ≡ (ok r, beat_rows))
    × (list_runtimes up (codes "ws_1") (pos 60000000000) 99000000000 beat_rows ≡ ok vs)
    × (count (λ v. eq_text v.id (codes "rt_1")) vs ≡ 1)
    × (count
          (λ v.
            eq_text v.id (codes "rt_1")
            && eq_text v.status (
                shown_status
                  (pos 60000000000)
                  99000000000
                  7000000000
                  (or_text (codes "online") (codes "idle"))))
          vs
        ≡ 1)
unfolding register_runtime
heartbeat_is_shown_example =
    heartbeat_is_shown (λ b. b) token (codes "rt_1") 0 runtime [] up up up (codes "idle") none
      7000000000 99000000000 (pos 60000000000) (completed_runtime (codes "rt_1") 0 runtime) _ refl
      refl refl refl refl

abbrev event : UsageEvent
event = record {
  id = codes "ue_1";
  workspace_id = codes "ws_1";
  user_id = [];
  runtime_id = [];
  kind = codes "llm.tokens";
  quantity = metered (pos 12);
  meta_json = codes "{}";
  created_at = seconds 5000000000;
}

usage_since-record_usage_example :
    (d : Dict ℕ) × (usage_since up (codes "ws_1") 1000000000 (event ∷ []) ≡ ok d)
    × (or_zero (lookup (codes "llm.tokens") d)
        ≡ used (codes "ws_1") (codes "llm.tokens") 1000000000 (event ∷ []))
    × (used (codes "ws_1") (codes "llm.tokens") 1000000000 (event ∷ [])
        ≡ (if eq_text (codes "ws_1") (codes "ws_1")
              && leb (seconds 1000000000) (seconds 5000000000)
              && eq_text (codes "llm.tokens") (codes "llm.tokens")
            then metered (pos 12)
            else 0)
          + used (codes "ws_1") (codes "llm.tokens") 1000000000 [])
unfolding record_usage
usage_since-record_usage_example =
    usage_since-record_usage up up (codes "ue_1") (codes "ws_1") [] [] (codes "llm.tokens")
      (codes "{}") (codes "ws_1") (codes "llm.tokens") 5000000000 1000000000 (pos 12) []
      (event ∷ []) refl refl
