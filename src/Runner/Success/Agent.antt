-- ===== src/Runner/Success/Agent.antt =====
-- pkg/runner/runner.go, `runTask`: the stages before isolation, in a task that returns no error.
use aries.Base.{
  ◌≡◌, refl, sym, ap, ◌∙◌, ◌≢◌, ◌⊎◌, inl, inr, true, List, [], ◌∷◌, Option, none, some, arith,
  snoc-ne-nil, Option-cases,
}
use aries.Core.Errors.{GoError}
use aries.Core.Types.{Task, HarnessResult, ToolEndpoint}
use aries.Runner.Roles.{run_context, detached}
use aries.Runner.Options.{Runner}
use aries.Runner.TaskRun.{
  Call, evaluate, stop_harness, stop_bridge, start_sandbox, prepare_sandbox, start_bridge,
  start_harness, run_harness, TaskRun, start_sandbox_call, prepare_sandbox_call, start_bridge_call,
  start_harness_call, run_harness_call,
}
use aries.Runner.Stages.{
  record_run, run_agent, harness_stage, bridge_stage, prepare_stage, sandbox_stage, begin,
  harness_request, sandbox_request,
}
use aries.Runner.Success.{Extends, isolate_stage_done}

module _ {W S : Type 0} (r : Runner W S) (task : Task) where
  record_run_frame :
      (outcome : HarnessResult) (err : Option GoError) (t : TaskRun W S)
      → (record_run r task outcome err t).all_errors ≡ []
      → ((record_run r task outcome err t).history ≡ t.history)
        × ((record_run r task outcome err t).sandbox ≡ t.sandbox)
        × (t.all_errors ≡ [])
        × (err ≡ none)
  unfolding record_run
  record_run_frame outcome none t h = (refl, refl, h, refl)
  record_run_frame outcome (some err) t h = absurd (snoc-ne-nil _ _ h)

  run_agent_done :
      (e : ToolEndpoint) (t : TaskRun W S)
      → (run_agent r task e t).all_errors ≡ []
      → ((run_agent r task e t).history
          ≡ run_harness run_context task.instruction none
            ∷ start_harness run_context (harness_request r task e t.sandbox) none
            ∷ t.history)
        × ((run_agent r task e t).sandbox ≡ t.sandbox)
        × (t.all_errors ≡ [])
  unfolding run_agent start_harness_call run_harness_call
  run_agent_done e t h = grind (arith, record_run_frame, snoc-ne-nil)

  -- The calls of a whole task that succeeds, the newest first. `t` is where the bridge is started.
  abbrev agent_calls : ToolEndpoint → TaskRun W S → List (Call S)
  agent_calls e t =
      let d = detached r.cleanup_timeout in
      evaluate run_context task t.sandbox
      ∷ stop_bridge d none
      ∷ stop_harness d none
      ∷ run_harness run_context task.instruction none
      ∷ start_harness run_context (harness_request r task e t.sandbox) none
      ∷ start_bridge run_context t.sandbox none
      ∷ t.history

  bridge_stage_cases :
      (t : TaskRun W S)
      → ((e : ToolEndpoint) × (u : TaskRun W S) × (bridge_stage r task t ≡ harness_stage r task e u)
          × (u.history ≡ start_bridge run_context t.sandbox none ∷ t.history)
          × (u.sandbox ≡ t.sandbox)
          × (u.all_errors ≡ t.all_errors))
        ⊎ ((bridge_stage r task t).all_errors ≢ [])
  unfolding bridge_stage start_bridge_call
  bridge_stage_cases t =
      let (w, e, err) = r.bridge.start run_context t.sandbox t.world in
      let u = record t {
        world = w;
        history = start_bridge run_context t.sandbox err ∷ t.history;
        bridge_active = true;
        result = record t.result { tool_log_paths = e.log_paths };
      } in
      elim (Option-cases err) [
        | inl started ↦ inl (e, u, ground (arith, started), ground (arith, started), refl, refl)
        | inr (x, failed) ↦ inr (grind (arith, failed, snoc-ne-nil))
      ]

  bridge_stage_done :
      (t : TaskRun W S)
      → (bridge_stage r task t).all_errors ≡ []
      → ((e : ToolEndpoint) × Extends (bridge_stage r task t).history (agent_calls e t))
        × (t.all_errors ≡ [])
  unfolding harness_stage
  bridge_stage_done t h = elim (bridge_stage_cases t) [
    | inr failed ↦ absurd (failed h)
    | inl (e, u, same, history, sandbox, errors) ↦
        let ran = run_agent r task e u in
        let (grown, clean) =
          isolate_stage_done r task ran (ap (λ x. x.all_errors) (sym same) ∙ h) in
        let (calls, kept, clean') = run_agent_done e u clean in
        (
          (e, (grown.0, ground (arith, grown.1, same, calls, history, sandbox, kept))),
          sym errors ∙ clean',
        )
  ]

  prepare_stage_cases :
      (t : TaskRun W S)
      → ((u : TaskRun W S) × (prepare_stage r task t ≡ bridge_stage r task u)
          × (u.history ≡ prepare_sandbox run_context task t.sandbox none ∷ t.history)
          × (u.sandbox ≡ t.sandbox)
          × (u.all_errors ≡ t.all_errors))
        ⊎ ((prepare_stage r task t).all_errors ≢ [])
  unfolding prepare_stage prepare_sandbox_call
  prepare_stage_cases t =
      let (w, err) = r.benchmark.prepare_sandbox run_context task t.sandbox t.world in
      let u = record t {
        world = w;
        history = prepare_sandbox run_context task t.sandbox err ∷ t.history;
      } in
      elim (Option-cases err) [
        | inl prepared ↦ inl (u, ground (arith, prepared), ground (arith, prepared), refl, refl)
        | inr (x, failed) ↦ inr (grind (arith, failed, snoc-ne-nil))
      ]

  sandbox_stage_cases :
      (t : TaskRun W S)
      → ((s : S) × (u : TaskRun W S) × (sandbox_stage r task t ≡ prepare_stage r task u)
          × (u.history
              ≡ start_sandbox run_context (sandbox_request r task) (some s) none ∷ t.history)
          × (u.sandbox ≡ some s)
          × (u.all_errors ≡ t.all_errors))
        ⊎ ((sandbox_stage r task t).all_errors ≢ [])
  unfolding sandbox_stage start_sandbox_call
  sandbox_stage_cases t =
      let (w, s, err) = r.tool_sandbox.start run_context (sandbox_request r task) t.world in
      let u = record t {
        world = w;
        history = start_sandbox run_context (sandbox_request r task) s err ∷ t.history;
        sandbox = s;
        sandbox_active = true;
      } in
      elim (Option-cases err) [
        | inl started ↦ elim (Option-cases s) [
          | inl absent ↦ inr (grind (arith, started, absent, snoc-ne-nil))
          | inr (x, present) ↦ inl (
            x,
            u,
            ground (arith, started, present),
            ground (arith, started, present),
            present,
            refl,
          )
        ]
        | inr (x, failed) ↦ inr (grind (arith, failed, snoc-ne-nil))
      ]

  -- Every call of a task up to `Evaluate`, the newest first.
  abbrev pub full_calls : S → ToolEndpoint → List (Call S)
  full_calls s e =
      let d = detached r.cleanup_timeout in
      evaluate run_context task (some s)
      ∷ stop_bridge d none
      ∷ stop_harness d none
      ∷ run_harness run_context task.instruction none
      ∷ start_harness run_context (harness_request r task e (some s)) none
      ∷ start_bridge run_context (some s) none
      ∷ prepare_sandbox run_context task (some s) none
      ∷ start_sandbox run_context (sandbox_request r task) (some s) none
      ∷ []

  pub sandbox_stage_done :
      (w : W)
      → let t = sandbox_stage r task (begin r task w) in
        t.all_errors ≡ [] → (s : S) × (e : ToolEndpoint) × Extends t.history (full_calls s e)
  unfolding begin
  sandbox_stage_done w h = elim (sandbox_stage_cases (begin r task w)) [
    | inr failed ↦ absurd (failed h)
    | inl (s, u, same, history, sandbox, errors) ↦ elim (prepare_stage_cases u) [
      | inr failed ↦ absurd (failed (ap (λ x. x.all_errors) (sym same) ∙ h))
      | inl (v, same', history', sandbox', errors') ↦
          let (reached, _) =
            bridge_stage_done v
              (ap (λ x. x.all_errors) (sym same') ∙ ap (λ x. x.all_errors) (sym same) ∙ h) in
          (
            s,
            reached.0,
            (
              reached.1.0,
              ground (arith, reached.1.1, same, same', history, history', sandbox, sandbox'),
            ),
          )
    ]
  ]
