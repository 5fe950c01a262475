-- ===== src/Runner/Samples.antt =====
-- Concrete roles that the witnesses and tests run: the world is a clock, each call takes a second.
use aries.Base.{
  ℕ, suc, String, true, false, List, [], ◌∷◌, ◌≡◌, refl, length, Option, none, some, Int.pos,
}
use aries.Core.Errors.{GoError, message, join, is}
use aries.Core.Types.{
  Environment, Task, ModelConfig, ToolEndpoint, HarnessResult, Evaluation, unset, succeeded, failed,
  blocked_isolation,
}
use aries.Runner.Roles.{finished, starts}
use aries.Runner.Options.{Runner, effective_runtime}
use aries.Runner.TaskRun.{
  TaskRun, start_sandbox_call, stop_sandbox_call, prepare_sandbox_call, start_bridge_call,
  stop_bridge_call, start_harness_call, run_harness_call, stop_harness_call,
}
use aries.Runner.Finish.{
  settle_cleanup, start_evaluation_sandbox, stop_each, stop_evaluation, cleanup_evaluation,
  cleanup_harness, cleanup_bridge, cleanup_sandbox, cleanup_all, report_context, close_result,
  finish,
}
use aries.Runner.Loop.{run_tasks, run}
use aries.Runner.Stages.{
  failure_status, new_task_result, run_evaluation, record_evaluation, evaluate_stage,
  block_evaluation, isolate_stage, record_run, harness_request, run_agent, harness_stage,
  bridge_stage, prepare_stage, sandbox_stage, begin, run_task,
}

abbrev pub model : ModelConfig
model = record {
  provider = "p";
  base_url = "u";
  model = "m";
  api_key_env = "K";
  reasoning_effort = "";
  context_length = pos 0;
  max_tokens = pos 0;
  temperature = none;
}

abbrev pub environment : Environment
environment = record {
  image = "img";
  workdir = "/w";
  cpu = 0;
  memory_mb = pos 512;
  storage_mb = pos 0;
  gpus = pos 0;
  allow_network = false;
  env = [];
  services = record { search_port = pos 0; mcp = [] };
  exec_user = "";
}

abbrev pub task : String → Task
task id = record {
  id = id;
  instruction = "do it";
  timeout = pos 60;
  environment = environment;
  no_sandbox_tools = false;
}

abbrev pub evaluation : Evaluation
evaluation = record {
  status = unset;
  score = 0;
  reward = 0;
  verifier_status = "";
  duration = pos 1;
  log_paths = [];
  error = none;
}

abbrev pub harness_result : HarnessResult
harness_result = record {
  status = unset;
  final_response = "done";
  duration = pos 1;
  log_paths = [];
  error = none;
}

abbrev pub endpoint : ToolEndpoint
endpoint = record {
  protocol = "ssh";
  address = "h:22";
  username = "aries";
  client_command = "";
  client_source_file = "";
  log_paths = "tool-calls.jsonl" ∷ [];
  workdir = "/w";
}

-- The errors that the calls return.
pub record Script : Type 0 where
  pub task_list : List Task
  pub prepare_err : Option GoError
  pub harness_stop_err : Option GoError
  pub bridge_start_err : Option GoError
  pub evaluate_err : Option GoError
  pub sandbox_stop_err : ℕ → Option GoError
  pub harness_run_err : Option GoError

abbrev pub smooth : Script
smooth = record {
  task_list = task "a" ∷ task "b" ∷ [];
  prepare_err = none;
  harness_stop_err = none;
  bridge_start_err = none;
  evaluate_err = none;
  sandbox_stop_err = λ _. none;
  harness_run_err = none;
}

-- Sandboxes are the times at which they were started. `Evaluate` starts two of its own.
abbrev pub runner : Script → Runner ℕ ℕ
runner script = record {
  benchmark = record {
    tasks = λ ctx w. (suc w, script.task_list, none);
    prepare_sandbox = λ ctx t s w. (suc w, script.prepare_err);
    evaluate = λ ctx t s w. starts ctx environment w (λ w' first err.
        starts ctx environment w'
          (λ w'' second err'. finished (suc w'') evaluation script.evaluate_err));
  };
  harness = record {
    start = λ ctx request w. (suc w, none);
    run = λ ctx instruction w. (suc w, harness_result, script.harness_run_err);
    stop = λ ctx w. (suc w, script.harness_stop_err);
  };
  tool_sandbox = record {
    start = λ ctx request w. (suc w, some w, none);
    stop = λ ctx s w. (suc w, script.sandbox_stop_err w);
  };
  bridge = record {
    start = λ ctx s w. (suc w, endpoint, script.bridge_start_err);
    stop = λ ctx w. (suc w, none);
  };
  host = record {
    now = λ w. w;
    ctx_err = λ w. none;
    connectivity = λ s. record {
      placement = record { attachment_id = "" };
      search_url = "";
      mcp_servers = [];
    };
  };
  name = "experiment";
  run_id = "r1";
  output_dir = "/out";
  model = model;
  cleanup_timeout = pos 30;
  runtime_overrides = record {
    harness_resources = record { cpu = some 0; memory_mb = none };
    agent_sandbox_resources = record { cpu = none; memory_mb = some (pos 1024) };
    agent_timeout = none;
  };
}

-- The first task, run from time 0. A test that computes it says `unfolding run_sample`.
pub run_sample : Script → TaskRun ℕ ℕ × Option GoError
unfolding join is effective_runtime start_sandbox_call stop_sandbox_call prepare_sandbox_call
    start_bridge_call stop_bridge_call start_harness_call run_harness_call stop_harness_call
    settle_cleanup start_evaluation_sandbox stop_each stop_evaluation cleanup_evaluation
    cleanup_harness cleanup_bridge cleanup_sandbox cleanup_all report_context close_result finish
    failure_status new_task_result run_evaluation record_evaluation evaluate_stage block_evaluation
    isolate_stage record_run harness_request run_agent harness_stage bridge_stage prepare_stage
    sandbox_stage begin run_task
run_sample script = run_task (runner script) (task "a") 0

pub smooth_clean : (run_task (runner smooth) (task "a") 0).0.result.cleanup.status ≡ succeeded
unfolding run_sample
smooth_clean = refl

pub smooth_silent : (run_task (runner smooth) (task "a") 0).1 ≡ none
unfolding run_sample
smooth_silent = refl

pub smooth_run_silent : (run (runner smooth) 0).2 ≡ none
unfolding run_sample run run_tasks
smooth_run_silent = refl

smooth_statuses :
    let t = (run_sample smooth).0 in
    (t.result.harness.status ≡ succeeded)
    × (t.result.evaluation.status ≡ succeeded)
    × (length t.history ≡ 13)
    × (t.started ≡ [])
unfolding run_sample
smooth_statuses = (refl, refl, refl, refl)

-- The sandbox has 1 GiB by the override, and a zero CPU limit is left out of the request.
overridden :
    let (environment, cpu, memory_mb, timeout) =
      effective_runtime (task "a") (runner smooth).runtime_overrides in
    (environment.memory_mb ≡ pos 1024) × (cpu ≡ none) × (memory_mb ≡ none) × (timeout ≡ pos 60)
unfolding effective_runtime
overridden = (refl, refl, refl, refl)

-- The harness does not stop: it is stopped again in the cleanup, in vain.
blocked_statuses :
    let t = (run_sample (record smooth { harness_stop_err = some (message "busy") })).0 in
    (t.result.evaluation.status ≡ blocked_isolation)
    × (t.result.cleanup.status ≡ failed)
    × (t.harness_active ≡ true)
    × (t.bridge_active ≡ false)
    × (t.sandbox_active ≡ false)
unfolding run_sample
blocked_statuses = (refl, refl, refl, refl, refl)
