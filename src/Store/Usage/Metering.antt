-- ===== src/Store/Usage/Metering.antt =====
-- internal/store/cloud.go: what a workspace has used.
use matrix_runtime.Common.{
  ℕ, ◌+◌, ◌≡◌, refl, sym, ap, ◌∙◌, false, ◌&&◌, List, [], ◌∷◌, keep, none, arith, leb,
  if◌then◌else◌, Text,
}
use matrix_runtime.Common.Int.{ℤ}
use matrix_runtime.Common.Strings.{eq_text, eq_text_iff}
use matrix_runtime.Common.Dict.{Dict, lookup}
use matrix_runtime.Common.Dict.Laws.{lookup-insert}
use matrix_runtime.Store.Tables.{Faults, ok, seconds}
use matrix_runtime.Store.Usage.{
  UsageEvent, metered, record_usage, or_zero, by_kind, is_counted, usage_since,
}

-- What the events of a kind add up to.
unfoldable pub used : Text → Text → ℕ → List UsageEvent → ℕ
used workspace_id kind since [] = 0
used workspace_id kind since (e ∷ es) =
    let rest = used workspace_id kind since es in
    if is_counted workspace_id since e && eq_text e.kind kind then e.quantity + rest else rest

by_kind-used :
    (workspace_id kind : Text) (since : ℕ) (es : List UsageEvent)
    → or_zero (lookup kind (by_kind (keep (is_counted workspace_id since) es)))
      ≡ used workspace_id kind since es
unfolding by_kind used lookup
by_kind-used workspace_id kind since [] = refl
by_kind-used workspace_id kind since (e ∷ es) =
    let d = by_kind (keep (is_counted workspace_id since) es) in
    ground (
      arith,
      by_kind-used workspace_id kind since es,
      lookup-insert e.kind kind (e.quantity + or_zero (lookup e.kind d)) d,
      eq_text_iff e.kind kind,
    )

-- Where the database does not fail, the usage of a workspace since an instant holds for every kind what the
-- workspace's events of the kind since then add up to; and an event that is recorded now raises this sum for its own
-- workspace and kind by its quantity, or by one where that is not positive, and no other sum.
pub usage_since-record_usage :
    (fails fails' : Faults) (id workspace_id user_id runtime_id kind meta_json w k : Text)
    (now since : ℕ) (quantity : ℤ) (rows rows' : List UsageEvent)
    → record_usage fails id now workspace_id user_id runtime_id kind quantity meta_json rows
      ≡ (none, rows')
    → fails' 0 ≡ false
    → (d : Dict ℕ) × (usage_since fails' w since rows' ≡ ok d)
      × (or_zero (lookup k d) ≡ used w k since rows')
      × (used w k since rows'
          ≡ (if eq_text workspace_id w && leb (seconds since) (seconds now) && eq_text kind k
              then metered quantity
              else 0)
            + used w k since rows)
unfolding record_usage usage_since used
usage_since-record_usage fails fails' id workspace_id user_id runtime_id kind meta_json w k now
      since quantity rows rows' h up =
    (
      by_kind (keep (is_counted w since) rows'),
      rw up refl,
      by_kind-used w k since rows',
      ap (used w k since) (sym recorded) ∙ ground arith,
    )
  where
    recorded :
        (record {
          id = id;
          workspace_id = workspace_id;
          user_id = user_id;
          runtime_id = runtime_id;
          kind = kind;
          quantity = metered quantity;
          meta_json = meta_json;
          created_at = seconds now;
        })
          ∷ rows
        ≡ rows'
    recorded = ground (arith, h)
