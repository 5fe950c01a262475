-- ===== src/Runner/Loop.antt =====
-- pkg/runner/runner.go, `Run`: the tasks one after the other.
pub mod Order
use aries.Base.{
  ℕ, String, ◌≡◌, refl, sym, ap, ◌∙◌, ◌≢◌, ◌⊎◌, inl, inr, true, false, ◌||◌, List, [], ◌∷◌, ◌++◌,
  map, Option, none, some, arith, ℤ, pos, sub_ℕ, Option-cases, append-ne-nil,
}
use aries.Core.Errors.{
  Sentinel, GoError, sentinel, wrapped, wrapped_for, join, join-eq-none, is, errors_is, some_is,
}
use aries.Core.Types.{Task, TaskResult, RunResult}
use aries.Runner.Roles.{run_context}
use aries.Runner.Options.{Runner}
use aries.Runner.Stages.{run_task}
use aries.Runner.Summary.{no_tasks, summarize}

-- `fmt.Errorf("task %q: %w", task.ID, taskErr)`, where there is an error.
abbrev pub task_errors : String → Option GoError → List GoError
task_errors id none = []
task_errors id (some e) = wrapped_for "task" id e ∷ []

module _ {W S : Type 0} (r : Runner W S) where
  -- The loop: the world after it, the results and the errors, in the order of the tasks.
  unfoldable pub run_tasks : List Task → W → W × List TaskResult × List GoError
  run_tasks [] w = (w, [], [])
  run_tasks (task ∷ tasks) w =
      let (t, err) = run_task r task w in
      let (w', results, errors) = run_tasks tasks t.world in
      elim (r.host.ctx_err w) [
        | some c ↦ (w, [], wrapped_for "schedule task" task.id (sentinel c) ∷ [])
        | none ↦ (w', t.result ∷ results, task_errors task.id err ++ errors)
      ]

  unfoldable pub run : W → W × RunResult × Option GoError
  run w =
      let (w₁, tasks, err) = r.benchmark.tasks run_context w in
      let (w₂, results, errors) = run_tasks tasks w₁ in
      elim err [
        | some e ↦ (
          w₁,
          record {
            name = r.name;
            run_id = r.run_id;
            tasks = [];
            summary = no_tasks;
            duration = sub_ℕ (r.host.now w₁) (r.host.now w);
          },
          some (wrapped "list benchmark tasks" e),
        )
        | none ↦ (
          w₂,
          record {
            name = r.name;
            run_id = r.run_id;
            tasks = results;
            summary = summarize results;
            duration = sub_ℕ (r.host.now w₂) (r.host.now w);
          },
          join errors,
        )
      ]
