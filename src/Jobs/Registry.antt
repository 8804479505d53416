-- ===== src/Jobs/Registry.antt =====
-- internal/jobs/store.go: the registry of jobs and of sandbox sessions. Its lock makes each method
-- one step.
pub mod Purge
use matrix_runtime.Common.{
  ℕ, Bool, true, false, not, ◌&&◌, ◌||◌, List, [], ◌∷◌, Option, none, some, map, any, keep, leb,
  is_some, if◌then◌else◌, Text, codes, ltb,
}
use matrix_runtime.Common.Strings.{eq_text}
use matrix_runtime.Common.Dict.{Dict, lookup, insert, modify, retain}
use matrix_runtime.Jobs.Job.{Job, Status, is_terminal, Session}

pub record Registry : Type 0 where
  pub jobs : Dict Job
  pub sandboxes : Dict Text  -- sandbox session id -> job id

unfoldable pub new_store : Registry
new_store = record { jobs = []; sandboxes = [] }

unfoldable pub put : Job → Registry → Registry
put j s = record s { jobs = insert j.id j s.jobs }

unfoldable pub get : Text → Registry → Option Job
get id s = lookup id s.jobs

unfoldable pub link_sandbox : Text → Text → Registry → Registry
link_sandbox session_id job_id s = record s { sandboxes = insert session_id job_id s.sandboxes }

abbrev pub get_linked : Option Text → Registry → Option Job
get_linked none s = none
get_linked (some id) s = lookup id s.jobs

unfoldable pub job_for_sandbox : Text → Registry → Option Job
job_for_sandbox session_id s = get_linked (lookup session_id s.sandboxes) s

-- Go gives the jobs in no order; the model gives them in the order of insertion.
unfoldable pub list_jobs : Registry → List Job
list_jobs s = map (λ e. e.1) s.jobs

-- The test of the purge: created no later than the cutoff, terminal, and without a session.
unfoldable pub is_purged : ℕ → Job → Bool
unfolding is_terminal
is_purged cutoff j =
    not (ltb cutoff j.created_at) && is_terminal j.status && not (is_some j.session)

-- The keys of the entries that pass a test.
pub keys_where : (Job → Bool) → Dict Job → List Text
keys_where p [] = []
keys_where p ((k, j) ∷ d) = let rest = keys_where p d in if p j then k ∷ rest else rest

unfoldable pub among : Text → List Text → Bool
among k [] = false
among k (i ∷ ids) = eq_text i k || among k ids

-- The IDs of the removed jobs, and the registry without these jobs and the links to them.
unfoldable pub purge_terminal_before : ℕ → Registry → List Text × Registry
unfolding keys_where among is_purged
purge_terminal_before cutoff s =
    let removed = keys_where (is_purged cutoff) s.jobs in
    (
      removed,
      record s {
        jobs = retain (λ id j. not (is_purged cutoff j)) s.jobs;
        sandboxes = retain (λ sid jid. not (among jid removed)) s.sandboxes;
      },
    )
