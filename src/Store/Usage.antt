-- ===== src/Store/Usage.antt =====
-- internal/store/cloud.go and audit.go: metering events, and the audit log. The new id and the clock are arguments;
-- metadata is its JSON text.
pub mod Metering
use matrix_runtime.Common.{
  ℕ, ◌+◌, Bool, true, false, ◌&&◌, ◌||◌, List, [], ◌∷◌, keep, take, Option, none, some, any, leb,
  ltb, if◌then◌else◌, Text, codes,
}
use matrix_runtime.Common.Int.{ℤ, is_positive, pos_part}
use matrix_runtime.Common.Strings.{eq_text, is_empty}
use matrix_runtime.Common.Dict.{Dict, lookup, insert}
use matrix_runtime.Store.Tables.{Faults, StoreError, database, constraint, Result, ok, err, seconds}
use matrix_runtime.Common.Newest.{newest_first}
use matrix_runtime.Store.Models.{or_text}

pub record UsageEvent : Type 0 where
  pub id : Text
  pub workspace_id : Text
  pub user_id : Text
  pub runtime_id : Text
  pub kind : Text
  pub quantity : ℕ
  pub meta_json : Text
  pub created_at : ℕ

-- A quantity that is not positive counts as one.
abbrev pub metered : ℤ → ℕ
metered quantity = if is_positive quantity then pos_part quantity else 1

unfoldable pub record_usage :
    Faults
    → Text
    → ℕ
    → Text
    → Text
    → Text
    → Text
    → ℤ
    → Text
    → List UsageEvent
    → Option StoreError × List UsageEvent
record_usage fails id now workspace_id user_id runtime_id kind quantity meta_json rows =
    if fails 0
    then (some database, rows)
    else if any (λ (e : UsageEvent). eq_text e.id id) rows
    then (some constraint, rows)
    else (
      none,
      (record {
        id = id;
        workspace_id = workspace_id;
        user_id = user_id;
        runtime_id = runtime_id;
        kind = kind;
        quantity = metered quantity;
        meta_json = meta_json;
        created_at = seconds now;
      })
          ∷ rows,
    )

abbrev pub or_zero : Option ℕ → ℕ
or_zero none = 0
or_zero (some n) = n

-- `GROUP BY kind` with the sum of each group.
unfoldable pub by_kind : List UsageEvent → Dict ℕ
by_kind [] = []
by_kind (e ∷ es) = let d = by_kind es in insert e.kind (e.quantity + or_zero (lookup e.kind d)) d

abbrev pub is_counted : Text → ℕ → UsageEvent → Bool
is_counted workspace_id since e =
    eq_text e.workspace_id workspace_id && leb (seconds since) e.created_at

unfoldable pub usage_since : Faults → Text → ℕ → List UsageEvent → Result (Dict ℕ)
unfolding by_kind
usage_since fails workspace_id since rows =
    if fails 0 then err database else ok (by_kind (keep (is_counted workspace_id since) rows))

pub record AuditEvent : Type 0 where
  pub id : Text
  pub workspace_id : Text
  pub actor : Text
  pub action : Text
  pub target : Text
  pub ip : Text
  pub status : Text
  pub meta : Text
  pub created_at : ℕ

unfoldable pub record_audit :
    Faults → Text → ℕ → AuditEvent → List AuditEvent → Option StoreError × List AuditEvent
record_audit fails new_id now e rows =
    let id = or_text new_id e.id in
    if fails 0
    then (some database, rows)
    else if any (λ (o : AuditEvent). eq_text o.id id) rows
    then (some constraint, rows)
    else (
      none,
      (record e { id = id; status = or_text (codes "success") e.status; created_at = seconds now })
          ∷ rows,
    )

abbrev pub audit_limit : ℤ → ℕ
audit_limit limit = if is_positive limit && leb (pos_part limit) 500 then pos_part limit else 100

unfoldable pub list_audit : Faults → Text → ℤ → List AuditEvent → Result (List AuditEvent)
unfolding newest_first
list_audit fails workspace_id limit rows =
    if fails 0
    then err database
    else ok (
        take (audit_limit limit) (
          newest_first (λ (e : AuditEvent). e.created_at)
            (keep (λ (e : AuditEvent). eq_text e.workspace_id workspace_id) rows)))
