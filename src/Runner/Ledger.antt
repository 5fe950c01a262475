-- ===== src/Runner/Ledger.antt =====
-- pkg/runner/runner.go: what the history of a task says is still held, and that the flags of
-- `runTask` agree with it through the cleanup.
pub mod Stages
use aries.Base.{
  ℕ, suc, ◌+◌, String, ◌≡◌, refl, Bool, true, false, List, [], ◌∷◌, ◌++◌, reverse, reverse_aux,
  Option, none, some, arith, length, length-append, length-reverse, if◌then◌else◌,
}
use aries.Core.Errors.{GoError, join}
use aries.Core.Types.{Task, Environment, Evaluation, ToolEndpoint, HarnessResult}
use aries.Runner.Roles.{Context, Evaluating, finished, starts}
use aries.Runner.Options.{Runner}
use aries.Runner.TaskRun.{
  Call, start_sandbox, stop_sandbox, start_bridge, stop_bridge, start_harness, stop_harness,
  TaskRun, start_sandbox_call, stop_sandbox_call, prepare_sandbox_call, start_bridge_call,
  stop_bridge_call, start_harness_call, run_harness_call, stop_harness_call,
}
use aries.Runner.Finish.{
  start_evaluation_sandbox, stop_each, stop_evaluation, cleanup_evaluation, cleanup_harness,
  cleanup_bridge, cleanup_sandbox, cleanup_all,
}
use aries.Runner.Stages.{
  run_evaluation, record_evaluation, evaluate_stage, block_evaluation, isolate_stage, record_run,
  harness_stage, bridge_stage, prepare_stage, sandbox_stage, begin,
}

-- A weight for each sandbox: with one for a sandbox and zero for all others the sums count it.
module _ {S : Type 0} (weight : S → ℕ) where
  abbrev opens : Call S → ℕ
  opens (start_sandbox ctx request (some s) none) = weight s
  opens _ = 0

  abbrev closes : Call S → ℕ
  closes (stop_sandbox ctx (some s) none) = weight s
  closes _ = 0

  -- The sandboxes that were started, and those whose stop was confirmed.
  abbrev pub opened : List (Call S) → ℕ
  opened [] = 0
  opened (c ∷ h) = opens c + opened h

  abbrev pub closed : List (Call S) → ℕ
  closed [] = 0
  closed (c ∷ h) = closes c + closed h

  abbrev pub weigh : List S → ℕ
  weigh [] = 0
  weigh (s ∷ ss) = weight s + weigh ss

  abbrev pub held : Bool → Option S → ℕ
  held true (some s) = weight s
  held _ _ = 0

  weigh-append : (ss ts : List S) → weigh (ss ++ ts) ≡ weigh ss + weigh ts
  weigh-append [] ts = ground arith
  weigh-append (s ∷ ss) ts = ground (arith, weigh-append ss ts)

  weigh-reverse_aux : (ss ts : List S) → weigh (reverse_aux ss ts) ≡ weigh ss + weigh ts
  weigh-reverse_aux [] ts = ground arith
  weigh-reverse_aux (s ∷ ss) ts = ground (arith, weigh-reverse_aux ss (s ∷ ts))

  weigh-reverse : (ss : List S) → weigh (reverse ss) ≡ weigh ss
  weigh-reverse ss = ground (arith, weigh-reverse_aux ss [])

module _ {S : Type 0} where
  -- A start was tried, and no stop was confirmed since.
  abbrev pub harness_live : List (Call S) → Bool
  harness_live [] = false
  harness_live (start_harness ctx request err ∷ h) = true
  harness_live (stop_harness ctx none ∷ h) = false
  harness_live (c ∷ h) = harness_live h

  abbrev pub bridge_live : List (Call S) → Bool
  bridge_live [] = false
  bridge_live (start_bridge ctx s err ∷ h) = true
  bridge_live (stop_bridge ctx none ∷ h) = false
  bridge_live (c ∷ h) = bridge_live h

module _ {W S : Type 0} (weight : S → ℕ) where
  pub record Tracks (t : TaskRun W S) : Type 0 where
    pub sandboxes :
        opened weight t.history
        ≡ closed weight t.history + held weight t.sandbox_active t.sandbox + weigh weight t.started
    pub harness : harness_live t.history ≡ t.harness_active
    pub bridge : bridge_live t.history ≡ t.bridge_active

  module _ (r : Runner W S) where
    pub stop_each_counts :
        (ctx : Context) (ss : List S) (t : TaskRun W S)
        → let (t', errs, remaining) = stop_each r ctx ss t in
          (opened weight t'.history ≡ opened weight t.history)
          × (closed weight t'.history + weigh weight remaining
              ≡ closed weight t.history + weigh weight ss)
          × (length errs ≡ length remaining)
          × (harness_live t'.history ≡ harness_live t.history)
          × (bridge_live t'.history ≡ bridge_live t.history)
          × (t'.sandbox_active ≡ t.sandbox_active)
          × (t'.sandbox ≡ t.sandbox)
          × (t'.harness_active ≡ t.harness_active)
          × (t'.bridge_active ≡ t.bridge_active)
    unfolding stop_each stop_sandbox_call
    stop_each_counts ctx [] t = ground arith
    stop_each_counts ctx (s ∷ ss) t =
        ground (arith, stop_each_counts ctx ss (stop_sandbox_call r ctx (some s) t).0)

    pub cleanup_evaluation-Tracks :
        (ctx : Context) (t : TaskRun W S) → Tracks t → Tracks (cleanup_evaluation r ctx t)
    unfolding cleanup_evaluation stop_evaluation
    cleanup_evaluation-Tracks ctx t h = ground (
      arith,
      stop_each_counts ctx (reverse t.started) (record t { cleanup_used = true }),
      weigh-reverse weight t.started,
      weigh-reverse weight
          (stop_each r ctx (reverse t.started) (record t { cleanup_used = true })).2,
    )

    pub cleanup_harness-Tracks :
        (ctx : Context) (t : TaskRun W S) → Tracks t → Tracks (cleanup_harness r ctx t)
    unfolding cleanup_harness stop_harness_call
    cleanup_harness-Tracks ctx t h = ground arith

    pub cleanup_bridge-Tracks :
        (ctx : Context) (t : TaskRun W S) → Tracks t → Tracks (cleanup_bridge r ctx t)
    unfolding cleanup_bridge stop_bridge_call
    cleanup_bridge-Tracks ctx t h = ground arith

    pub cleanup_sandbox-Tracks :
        (ctx : Context) (t : TaskRun W S) → Tracks t → Tracks (cleanup_sandbox r ctx t)
    unfolding cleanup_sandbox stop_sandbox_call
    cleanup_sandbox-Tracks ctx t h = ground arith

    pub start_evaluation_sandbox-Tracks :
        (ctx : Context) (task_id : String) (e : Environment) (t : TaskRun W S)
        → Tracks t
        → Tracks (start_evaluation_sandbox r ctx task_id e t).0
    unfolding start_evaluation_sandbox start_sandbox_call
    start_evaluation_sandbox-Tracks ctx task_id e t h = grind (arith, weigh-append weight)

module _ {W S : Type 0} (r : Runner W S) where
  pub stop_each_errors :
      (ctx : Context) (ss : List S) (t : TaskRun W S)
      → let t' = (stop_each r ctx ss t).0 in
        (t'.all_errors ≡ t.all_errors)
        × (t'.cleanup_errors ≡ t.cleanup_errors)
        × (t'.cleanup_used ≡ t.cleanup_used)
  unfolding stop_each stop_sandbox_call
  stop_each_errors ctx [] t = ground arith
  stop_each_errors ctx (s ∷ ss) t =
      ground (arith, stop_each_errors ctx ss (stop_sandbox_call r ctx (some s) t).0)
