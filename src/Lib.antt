-- ===== src/Lib.antt =====
-- ARIES (Agent Runtime & Infrastructure Experimentation System): the run of a benchmark over agent
-- harnesses, tool bridges and sandboxes.
--
-- The parts. A Runner (pkg/runner) takes the tasks of a benchmark and gives each one to four
-- substitutable roles: the benchmark itself, an agent harness, a tool sandbox and a tool bridge. The
-- bridges of a run are one child process, whose control service (pkg/bridge/control) admits and
-- releases sandboxes; the SSH bridges (pkg/bridge/ssh) decode what a harness sends them,
-- and every bridge records its calls through one audit writer (pkg/bridge/internal/bridgekit).
--
-- Base      shared names, Boolean tests, lists measured by native numbers, signed integers.
-- Core      pkg/core/types.go field for field, and Go's errors: `errors.New`, `%w`, `errors.Join`,
--           `errors.Is`. A field that the source fills with `err.Error()` holds the error itself.
-- Runner    pkg/runner. Roles: interfaces.go. Options: `New`, the overrides. TaskRun: the variables
--           of `runTask` and its calls of the roles. Finish: `finish` and `evaluationSandboxes`.
--           Stages: `runTask` from its first call to isolation and evaluation. Loop: `Run`.
--           Summary: `summarize`. The proofs: Ledger and Cleanup (what is still held), Gate and
--           Outcome (isolation before evaluation), Success, Reports, Identity, Loop/Order.
-- Ssh       pkg/bridge/ssh. Quote: the single-quoted tokens of both dialects and their scanner.
--           Hermes: hermes/grammar.go, with the proofs in Token and Command. OpenClaw:
--           openclaw/grammar.go, with the proofs in Tokens, Environment, Assignments and Command.
-- Control   pkg/bridge/control. State: the messages and the service's state. Entry and Calls:
--           server.go, one function per critical section and per end of a goroutine. Steps: these
--           as a transition system in any order. The proofs: Valid and Reach (the invariant), Moves
--           (a step seen from one id), Onward, Once, Binding, Release, Progress, Close.
-- Audit     pkg/bridge/internal/bridgekit/audit.go, the log that every bridge writes. State and
--           Writer: the calls and the goroutine, one call of a file per turn. Steps: these in any
--           order. The proofs: Wake, Log and Complete, Budget.
-- Session   pkg/bridge/session.go and artifacts.go. Start and Stop of a task's bridge session, Stop
--           with the collection of evidence. Admission: admission.go, the registration in a Start. The
--           proofs: Address and Opened, Closed, Collected and Evidence, Admitted.
-- Ownership pkg/harness/internal/runtime/ownership.go. Stop: the stop attempts of a harness, which
--           callers keep pointers to. Attempts and Begins: what they can rely on. Spec and Refines: the same as
--           one cell.
-- Service   pkg/bridge/service.go and launch.go. State: `NewService` and the runtime's request. Start:
--           `Start` and `NewSession`. Stop: `Stop`, which stops the sessions of Session first. The
--           proofs: Ready, Launched and Kept (a Start returns and loses nothing), Closed and Down.
-- Sandbox   pkg/sandbox. Path: the container paths and `filepath.Clean` on them. Checks and Request:
--           the checks on users, commands and requests, and what the deployment is asked for. State,
--           Stop, Start: the manager and its sandboxes, with the rollback of a Start. The proofs:
--           Canonical, Users, Held and Rollback (what is there against what is owned), Leaks, Close, Shut.
--           Transfer and Export: files, commands and what a bridge is told; Published, Downloads.
--           RuntimeName of Core is pkg/core/runtime_name.go.
-- Image     pkg/containerimage/image.go: the references to images that are accepted.
-- Target    pkg/bridge/target. Grant: `Validate` and `Borrowed`. The proofs: Started (what a Start
--           yields) and Exported (its export is a valid grant).
--
-- How the source is read. A role's method is a function from the world it runs in to its results
-- and the world it leaves, so that it may do anything; `ctx.Err()` and the clock are read off the
-- world. `Evaluate` may call back to start sandboxes, so a run of it is a tree of such calls. A
-- float64 is its bit pattern, a string map its entries, a nil-able value an `Option`. `history` in
-- `TaskRun` is an addition: it records the calls for the statements. All loops are over lists and
-- all recursions structural, but for three loops on fuel: the loop over the tokens of an OpenClaw
-- command has the length of the text, of which every turn passes two bytes or more; the polls of a
-- service's Start and of a session's registration have more than their context leaves, which every
-- turn lessens.
--
-- Not modelled: log lines, the text of wrapped errors, wall-clock timeouts of contexts (a timeout
-- shows as an error that a call returns), the pointers that the clone helpers keep apart.
pub mod Base
pub mod Core
pub mod Runner
pub mod Audit
pub mod Control
pub mod Image
pub mod Ownership
pub mod Sandbox
pub mod Service
pub mod Session
pub mod Ssh
pub mod Target
