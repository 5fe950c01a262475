-- ===== src/Runner/Roles.antt =====
-- pkg/runner/interfaces.go: the four substitutable roles. They are implemented elsewhere, so each
-- method is a function of the world it runs in, and returns the world that it leaves behind.
use aries.Base.{ℕ, String, List, Option}
use aries.Core.Errors.{Sentinel, GoError}
use aries.Core.Types.{
  Duration, Task, Environment, SandboxRequest, ToolEndpoint, HarnessConnectivity, HarnessRequest,
  HarnessResult, Evaluation,
}

-- The context of a call: the run's own, or `WithTimeout(WithoutCancel(ctx), timeout)`.
pub data Context : Type 0 where
  run_context : Context
  detached : Duration → Context

-- What the code reads of the world without a call: the clock, `ctx.Err()` of the run's context,
-- and the connectivity of a live sandbox.
pub record Host (W S : Type 0) : Type 0 where
  pub now : W → ℕ
  pub ctx_err : W → Option Sentinel
  pub connectivity : Option S → HarnessConnectivity

-- `Evaluate` may start evaluation sandboxes through the callback it is given, as often as it
-- likes and depending on what it saw: a run of it is a tree of such calls.
pub data Evaluating (W S : Type 0) : Type 0 where
  finished : W → Evaluation → Option GoError → Evaluating W S
  starts :
      Context → Environment → W → (W → Option S → Option GoError → Evaluating W S) → Evaluating W S

pub record Benchmark (W S : Type 0) : Type 0 where
  pub tasks : Context → W → W × List Task × Option GoError
  pub prepare_sandbox : Context → Task → Option S → W → W × Option GoError
  pub evaluate : Context → Task → Option S → W → Evaluating W S

pub record AgentHarness (W : Type 0) : Type 0 where
  pub start : Context → HarnessRequest → W → W × Option GoError
  pub run : Context → String → W → W × HarnessResult × Option GoError
  pub stop : Context → W → W × Option GoError

-- A sandbox value may be nil.
pub record ToolSandbox (W S : Type 0) : Type 0 where
  pub start : Context → SandboxRequest → W → W × Option S × Option GoError
  pub stop : Context → Option S → W → W × Option GoError

pub record ToolBridge (W S : Type 0) : Type 0 where
  pub start : Context → Option S → W → W × ToolEndpoint × Option GoError
  pub stop : Context → W → W × Option GoError
