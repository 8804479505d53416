-- ===== src/Store/Runtimes.antt =====
-- internal/store/cloud.go: the runtimes of a workspace, and their heartbeats. The clock, the id and the token of
-- a new runtime are arguments; a time that is not set is none.
pub mod Shown
use matrix_runtime.Common.{
  ℕ, ◌+◌, ◌*◌, Bool, true, false, not, ◌&&◌, List, [], ◌∷◌, ◌++◌, map, keep, Option, none, some,
  find?, any, ltb, if◌then◌else◌, Text, codes,
}
use matrix_runtime.Common.Int.{ℤ, pos_part, is_positive}
use matrix_runtime.Common.Strings.{eq_text}
use matrix_runtime.Auth.Hex.{Bytes}
use matrix_runtime.Auth.Password.{fast_hash}
use matrix_runtime.Store.Tables.{
  Faults, Result, ok, err, database, no_random, constraint, not_found, seconds,
}
use matrix_runtime.Common.Newest.{newest_first}
use matrix_runtime.Store.Models.{or_text}

pub record Runtime : Type 0 where
  pub id : Text
  pub workspace_id : Text
  pub name : Text
  pub mode : Text
  pub kind : Text
  pub url : Text
  pub hf_space : Text
  pub region : Text
  pub caps : List Text
  pub status : Text
  pub version : Text
  pub last_seen_at : Option ℕ
  pub created_at : ℕ

-- A row of the table runtimes, with the hash of the runtime's token.
pub record RuntimeRow : Type 0 where
  pub runtime : Runtime
  pub token_hash : Text

unfoldable pub completed_runtime : Text → ℕ → Runtime → Runtime
completed_runtime id now rt = record rt {
  id = id;
  status = or_text (codes "online") rt.status;
  last_seen_at = some (seconds now);
  created_at = seconds now;
}

-- The runtime and its token, which is shown once.
unfoldable pub register_runtime :
    (Bytes → Bytes)
    → Faults
    → Option Text
    → Text
    → ℕ
    → Runtime
    → List RuntimeRow
    → Result (Runtime × Text) × List RuntimeRow
unfolding completed_runtime fast_hash
register_runtime sha256 fails none id now rt rows = (err no_random, rows)
register_runtime sha256 fails (some token) id now rt rows =
    if fails 0
    then (err database, rows)
    else if any (λ (o : RuntimeRow). eq_text o.runtime.id id) rows
    then (err constraint, rows)
    else (
      ok (completed_runtime id now rt, token),
      rows
          ++ (record { runtime = completed_runtime id now rt; token_hash = fast_hash sha256 token })
            ∷ [],
    )

-- `time.Since(t) > staleAfter` for a stored time t.
abbrev pub is_stale : ℤ → ℕ → Option ℕ → Bool
is_stale stale_after now none = false
is_stale stale_after now (some seen) = ltb (seen * 1000000000 + pos_part stale_after) now

-- What the list shows of a row.
unfoldable pub shown_runtime : ℤ → ℕ → Runtime → Runtime
shown_runtime stale_after now rt =
    if not (eq_text rt.status (codes "offline"))
      && is_positive stale_after
      && is_stale stale_after now rt.last_seen_at
    then record rt { status = codes "offline" }
    else rt

unfoldable pub list_runtimes : Faults → Text → ℤ → ℕ → List RuntimeRow → Result (List Runtime)
unfolding newest_first shown_runtime
list_runtimes fails workspace_id stale_after now rows =
    if fails 0
    then err database
    else ok (
        map (λ (o : RuntimeRow). shown_runtime stale_after now o.runtime)
          (newest_first (λ (o : RuntimeRow). o.runtime.created_at)
            (keep (λ (o : RuntimeRow). eq_text o.runtime.workspace_id workspace_id) rows)))

abbrev pub or_caps : List Text → Option (List Text) → List Text
or_caps old none = old
or_caps old (some caps) = caps

unfoldable pub beaten : Text → Option (List Text) → ℕ → Runtime → Runtime
beaten status caps now rt = record rt {
  status = or_text (codes "online") status;
  caps = or_caps rt.caps caps;
  last_seen_at = some (seconds now);
}

abbrev pub update_runtime : Text → (Runtime → Runtime) → List RuntimeRow → List RuntimeRow
update_runtime id f =
    map (λ o. if eq_text o.runtime.id id then record o { runtime = f o.runtime } else o)

abbrev pub beat :
    Faults
    → Text
    → Option (List Text)
    → ℕ
    → List RuntimeRow
    → Option RuntimeRow
    → Result Runtime × List RuntimeRow
beat fails status caps now rows none = (err not_found, rows)
beat fails status caps now rows (some o) = if fails 1 then (err database, rows) else (
  ok (beaten status caps now o.runtime),
  update_runtime o.runtime.id (beaten status caps now) rows,
)

-- The runtime that Go returns beside an error of the update is left out.
unfoldable pub heartbeat_runtime :
    (Bytes → Bytes)
    → Faults
    → Text
    → Text
    → Option (List Text)
    → ℕ
    → List RuntimeRow
    → Result Runtime × List RuntimeRow
unfolding fast_hash beaten
heartbeat_runtime sha256 fails token status caps now rows =
    if fails 0
    then (err database, rows)
    else beat fails status caps now rows
        (find? (λ o. eq_text o.token_hash (fast_hash sha256 token)) rows)
