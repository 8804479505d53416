-- ===== src/Tests/Clients.antt =====
-- A client whose server replies to one call and then ends, a job that is cancelled, and the model cache.
use matrix_runtime.Common.{
  ◌≡◌, refl, true, false, not, ◌&&◌, List, [], ◌∷◌, ◌++◌, none, some, is_some, if◌then◌else◌, codes,
}
use matrix_runtime.Common.Strings.{eq_text}
use matrix_runtime.Common.Dict.{lookup}
use matrix_runtime.Common.Paths.{slash}
use matrix_runtime.Common.Paths.Stacks.{no_slash}
use matrix_runtime.Cache.{
  Layout, Locks, locked, hugging_face, safe_model_key, model_dir, lock_path, acquire_model_lock,
  release_model_lock,
}
use matrix_runtime.Cache.Keys.{model_dir_lem}
use matrix_runtime.Cache.Locks.{model_lock_lem}
use matrix_runtime.Mcp.Client.{
  Response, Call, Client, waiting, ended, ClientStep, begins, writes, dispatches, sends, closes,
  free, reader_ends, receives, new_client, run_client, step_client, find_call, on_call, dispatch,
  begin_call, end_reader, close_calls,
}
use matrix_runtime.Mcp.Client.Safety.{IsSafe, run_client_lem}
use matrix_runtime.Mcp.Client.Safety.Liveness.{end_of, receives_ends_call}

abbrev answer : Response
answer = record { id = some 1; result = codes "{}"; error = none }

-- Two calls are written; the first one's reply comes, and then the reader ends.
abbrev steps : List ClientStep
steps =
    begins
    ∷ begins
    ∷ writes 1 true
    ∷ writes 2 true
    ∷ dispatches answer
    ∷ sends 1
    ∷ closes 1
    ∷ reader_ends
    ∷ []

run_client_lem_example : (c : Client) × (run_client steps new_client ≡ some c) × IsSafe c
run_client_lem_example = run_client_lem steps

abbrev first : Call
first = record {
  id = 1;
  phase = waiting;
  pending = false;
  inbox = some answer;
  closed = true;
  held = free;
}

abbrev second : Call
second = record {
  id = 2;
  phase = waiting;
  pending = false;
  inbox = none;
  closed = true;
  held = free;
}

abbrev closed_client : Client
closed_client = record { next_id = 2; read_failed = true; calls = second ∷ first ∷ [] }

receives_ends_call_example :
    (c' : Client) × (k' : Call) × (step_client (receives 2) closed_client ≡ some c')
    × (find_call 2 c'.calls ≡ some k')
    × (k'.phase ≡ ended (end_of none))
unfolding run_client step_client new_client begin_call on_call dispatch end_reader close_calls
    find_call
receives_ends_call_example = receives_ends_call steps closed_client 2 second refl refl refl refl

abbrev layout : Layout
layout = record { base = codes "/var/lib/matrix-runtime" }

-- A name that would leave the directory.
model_dir_lem_example :
    (model_dir layout (codes "..") (codes "../../etc")
      ≡ hugging_face layout ++ slash ∷ safe_model_key (codes "..") (codes "../../etc"))
    × (no_slash (safe_model_key (codes "..") (codes "../../etc")) ≡ true)
model_dir_lem_example = model_dir_lem layout (codes "..") (codes "../../etc")

abbrev held : Locks
held =
    (lock_path layout (codes "Qwen") (codes "Q-7B"), record { owner = codes "job_1"; acquired = 1 })
    ∷ []

model_lock_lem_example :
    let path = lock_path layout (codes "Qwen") (codes "Q-7B") in
    let taken = is_some (lookup path held) in
    let (e, ls) =
      acquire_model_lock none none layout (codes "Qwen") (codes "Q-7B") (codes "job_2") 5 held in
    (e ≡ (if taken then some locked else none))
    × (lookup path ls ≡ (
        if not taken && eq_text path path
        then some (record { owner = codes "job_2"; acquired = 5 })
        else lookup path held))
    × (lookup path (release_model_lock layout (codes "Qwen") (codes "Q-7B") held)
        ≡ (if eq_text path path then none else lookup path held))
unfolding lookup
model_lock_lem_example =
    model_lock_lem layout (codes "Qwen") (codes "Q-7B") (codes "job_2") 5 held
      (lock_path layout (codes "Qwen") (codes "Q-7B")) (refl, tt)
