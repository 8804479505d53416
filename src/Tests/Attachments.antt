-- ===== src/Tests/Attachments.antt =====
-- A model that is attached to a runtime.
use matrix_runtime.Common.{
  ◌≡◌, ◌≤◌, ◌+◌, refl, true, false, [], ◌∷◌, Option, none, some, Text, codes,
}
use matrix_runtime.Common.Strings.{eq_text}
use matrix_runtime.Logs.Bus.{new_bus}
use matrix_runtime.Common.Int.{pos}
use matrix_runtime.Jobs.Job.{Job, Status}
use matrix_runtime.Store.Models.{Installation}
use matrix_runtime.Jobs.ModelAttach.{
  AttachPayload, World, Attach, handle_model_attach, attach_result,
}
use matrix_runtime.Jobs.ModelAttach.Ends.{handle_model_attach_ends}
use matrix_runtime.Jobs.ModelAttach.Safety.{Shows, handle_model_attach_honest}
use matrix_runtime.Jobs.ModelAttach.Ready.{IsReady, handle_model_attach-IsReady}

abbrev payload : AttachPayload
payload = record {
  installation_id = codes "mi_1";
  profile_id = codes "mp_1";
  model = codes "hf:a/b";
  provider = codes "Hugging Face";
  runtime_id = codes "rt_1";
  install_mode = [];
  serving_engine = codes "vllm";
}

abbrev world : World
world = record {
  sleeps = λ n. true;
  rands = λ n. 3;
  has_db = true;
  db_fails = λ n. false;
  clock = λ n. n;
  data_dir = codes "/data";
  disk_error = none;
  serving_error = none;
  metadata = λ model. codes "limited";
  json = λ fields. codes "{}";
}

abbrev job : Job
job = record {
  id = codes "job_1";
  type = codes "model.attach";
  payload = [];
  created_at = 0;
  expires_at = pos 60;
  ttl = pos 60;
  status = Status.running;
  result = none;
  err_msg = [];
  session = none;
  bus = new_bus;
}

abbrev install : Installation
install = record {
  id = codes "mi_1";
  workspace_id = codes "ws_1";
  model_profile_id = codes "mp_1";
  runtime_id = codes "rt_1";
  install_mode = [];
  serving_engine = codes "vllm";
  status = codes "queued";
  progress = 0;
  local_path = [];
  endpoint_url = [];
  job_id = codes "job_1";
  created_at = 0;
  updated_at = 0;
}

abbrev attach : Attach
attach = record { job = job; installs = install ∷ []; profiles = []; slept = 0; writes = 0 }

handle_model_attach_ends_example :
    (err : Option Text) × (t : Attach) × (handle_model_attach world payload attach ≡ some (err, t))
    × (t.slept ≤ attach.slept + 17)
handle_model_attach_ends_example = handle_model_attach_ends world payload attach

handle_model_attach_honest_example :
    (err : Option Text) × (t : Attach) × (handle_model_attach world payload attach ≡ some (err, t))
    × Shows world payload err t
unfolding eq_text
handle_model_attach_honest_example = handle_model_attach_honest world payload attach refl (refl, tt)

handle_model_attach-IsReady_example :
    (t : Attach) × (handle_model_attach world payload attach ≡ some (none, t))
    × (t.job.result ≡ some (attach_result world payload))
    × IsReady payload.installation_id t.installs
handle_model_attach-IsReady_example =
    handle_model_attach-IsReady world payload attach (λ n. refl) refl refl refl refl refl
      (λ n. refl)
