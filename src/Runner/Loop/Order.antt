-- ===== src/Runner/Loop/Order.antt =====
-- pkg/runner/runner.go, `Run`: which tasks a run has results for.
use aries.Base.{
  suc, String, ◌≡◌, refl, sym, ap, ap₂, subst, ◌∙◌, ◌≢◌, ◌⊎◌, inl, inr, true, List, [], ◌∷◌, ◌++◌,
  map, Option, none, some, arith, Option-cases, append-eq-nil, All, length, append-nil,
}
use aries.Core.Errors.{
  Sentinel, GoError, sentinel, wrapped_for, join-eq-none, is, errors_is, some_is, some_is-append,
  same_sentinel_self, errors_is-join,
}
use aries.Core.Types.{Task, TaskResult}
use aries.Runner.Roles.{run_context}
use aries.Runner.Options.{Runner}
use aries.Runner.Stages.{run_task}
use aries.Runner.Summary.{summarize_counts}
use aries.Runner.Identity.{run_task-task_id}
use aries.Runner.Reports.{run_task-reports}
use aries.Runner.Loop.{task_errors, run_tasks, run}

abbrev pub task_ids : List Task → List String
task_ids = map (λ t. t.id)

abbrev pub result_ids : List TaskResult → List String
result_ids = map (λ t. t.task_id)

abbrev pub Clean : List TaskResult → Type 0
Clean = All (λ t. t.error ≡ none)

not_told : (errors : List GoError) (c : Sentinel) → errors ≡ [] → some_is errors c ≢ true
not_told errors c h told = ground arith

length_of_ids :
    (tasks : List Task) (results : List TaskResult)
    → task_ids tasks ≡ result_ids results
    → length tasks ≡ length results
length_of_ids [] [] h = refl
length_of_ids [] (x ∷ xs) h = cc
length_of_ids (t ∷ ts) [] h = cc
length_of_ids (t ∷ ts) (x ∷ xs) h = ap suc (length_of_ids ts xs (cc))

some-ne-none : {e : GoError} → ◌≢◌ {A = Option GoError} (some e) none
some-ne-none h = cc

told_lem :
    (task : Task) (c : Sentinel)
    → some_is (wrapped_for "schedule task" task.id (sentinel c) ∷ []) c ≡ true
unfolding is
told_lem task c = ground (arith, same_sentinel_self c)

module _ {W S : Type 0} (r : Runner W S) where
  -- Some tasks were not scheduled, because the run's context had ended, and the errors say so.
  abbrev pub Stopped : W → List GoError → Type 0
  Stopped w errors = (c : Sentinel) × (r.host.ctx_err w ≡ some c) × (some_is errors c ≡ true)

  run_tasks_ended :
      (task : Task) (tasks : List Task) (w : W) (c : Sentinel)
      → r.host.ctx_err w ≡ some c
      → run_tasks r (task ∷ tasks) w
        ≡ (w, [], wrapped_for "schedule task" task.id (sentinel c) ∷ [])
  unfolding run_tasks
  run_tasks_ended task tasks w c ended = rw (ended, run_tasks)

  run_tasks_going :
      (task : Task) (tasks : List Task) (w : W)
      → r.host.ctx_err w ≡ none
      → let (t, err) = run_task r task w in
        let (w', results, errors) = run_tasks r tasks t.world in
        run_tasks r (task ∷ tasks) w ≡ (w', t.result ∷ results, task_errors task.id err ++ errors)
  unfolding run_tasks
  run_tasks_going task tasks w going = rw (going, run_tasks)

  -- The results are those of the first tasks, in order, and tasks are left only if it stopped.
  abbrev Ordered : List Task → W × List TaskResult × List GoError → Type 0
  Ordered tasks (w, results, errors) =
      (left : List Task) × (task_ids tasks ≡ result_ids results ++ task_ids left)
      × ((left ≡ []) ⊎ Stopped w errors)

  Stopped-append : (w : W) (es errors : List GoError) → Stopped w errors → Stopped w (es ++ errors)
  Stopped-append w es errors (c, ended, told) =
      (c, ended, ground (arith, some_is-append es errors c, told))

  run_tasks-Ordered : (tasks : List Task) (w : W) → Ordered tasks (run_tasks r tasks w)
  run_tasks-Ordered [] w = unfold run_tasks in ([], refl, inl refl)
  run_tasks-Ordered (task ∷ tasks) w = elim (Option-cases (r.host.ctx_err w)) [
    | inr (c, ended) ↦
        subst (Ordered (task ∷ tasks)) (sym (run_tasks_ended task tasks w c ended))
          (task ∷ tasks, refl, inr (c, ended, told_lem task c))
    | inl going ↦
        let (t, err) = run_task r task w in
        let (left, ids, rest) = run_tasks-Ordered tasks t.world in
        let errors = task_errors task.id err in
        subst (Ordered (task ∷ tasks)) (sym (run_tasks_going task tasks w going)) (
          left,
          ap₂ (λ x xs. x ∷ xs) (sym (run_task-task_id r task w)) ids,
          elim rest [ inl all ↦ inl all | inr stopped ↦ inr (Stopped-append _ errors _ stopped) ],
        )
  ]

  task_errors-eq-nil : (id : String) (err : Option GoError) → task_errors id err ≡ [] → err ≡ none
  task_errors-eq-nil id none h = refl
  task_errors-eq-nil id (some e) h = cc

  abbrev CleanIfSilent : W × List TaskResult × List GoError → Type 0
  CleanIfSilent (w, results, errors) = errors ≡ [] → Clean results

  run_tasks-Clean : (tasks : List Task) (w : W) → CleanIfSilent (run_tasks r tasks w)
  run_tasks-Clean [] w = unfold run_tasks in λ _. tt
  run_tasks-Clean (task ∷ tasks) w = elim (Option-cases (r.host.ctx_err w)) [
    | inr (c, ended) ↦ subst CleanIfSilent (sym (run_tasks_ended task tasks w c ended)) (λ _. tt)
    | inl going ↦
        let (t, err) = run_task r task w in
        let rest = run_tasks-Clean tasks t.world in
        subst CleanIfSilent (sym (run_tasks_going task tasks w going)) (λ h.
          let (none_here, none_later) = append-eq-nil (task_errors task.id err) _ h in
          (
            (run_task-reports r task w).0 ∙ task_errors-eq-nil task.id err none_here,
            rest none_later,
          ))
  ]

  -- If the benchmark lists its tasks, the results of a run are those of the first tasks, one for
  -- each and in their order. Tasks are left over only if the run's context had ended when the run
  -- stopped, and then `errors.Is` finds the context's error in the error that the run returns.
  pub run_order :
      (w : W)
      → (r.benchmark.tasks run_context w).2 ≡ none
      → let tasks = (r.benchmark.tasks run_context w).1 in
        let (w', result, err) = run r w in
        (left : List Task) × (task_ids tasks ≡ result_ids result.tasks ++ task_ids left)
        × ((left ≡ []) ⊎ ((c : Sentinel) × (r.host.ctx_err w' ≡ some c) × (errors_is err c ≡ true)))
  unfolding run
  run_order w listed =
      let (w₁, tasks, _) = r.benchmark.tasks run_context w in
      let (w₂, results, errors) = run_tasks r tasks w₁ in
      let (left, ids, rest) = run_tasks-Ordered tasks w₁ in
      rw (listed, run)
        (
          left,
          ids,
          elim rest [
            | inl all ↦ inl all
            | inr (c, ended, told) ↦ inr (c, ended, errors_is-join errors c ∙ told)
          ],
        )

  -- A run that returns no error listed the tasks and has a result for each of them, in order; no
  -- result records an error, and the summary counts every task.
  pub run_complete :
      (w : W)
      → (run r w).2 ≡ none
      → let tasks = (r.benchmark.tasks run_context w).1 in
        let (_, result, _) = run r w in
        ((r.benchmark.tasks run_context w).2 ≡ none)
        × (task_ids tasks ≡ result_ids result.tasks)
        × Clean result.tasks
        × (result.summary.tasks ≡ length tasks)
  unfolding run
  run_complete w silent = elim (Option-cases (r.benchmark.tasks run_context w).2) [
    | inr (e, failed) ↦ absurd (some-ne-none (rw (failed, run) at silent))
    | inl listed ↦
        let (w₁, tasks, _) = r.benchmark.tasks run_context w in
        let (w₂, results, errors) = run_tasks r tasks w₁ in
        let quiet : errors ≡ [] = join-eq-none errors (rw (listed, run) at silent) in
        let (left, ids, rest) = run_tasks-Ordered tasks w₁ in
        let all : task_ids tasks ≡ result_ids results = elim rest [
          | inl done ↦ ids ∙ ap (λ l. result_ids results ++ task_ids l) done ∙ append-nil _
          | inr (c, _, told) ↦ absurd (not_told errors c quiet told)
        ] in
        rw (listed, run)
          (
            refl,
            all,
            run_tasks-Clean tasks w₁ quiet,
            (summarize_counts results).0 ∙ sym (length_of_ids tasks results all),
          )
  ]
