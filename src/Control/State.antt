-- ===== src/Control/State.antt =====
-- pkg/bridge/control/server.go and v1/control.proto: the messages and the state of the service.
use aries.Base.{ℕ, ℤ, Bool, Bytes, List, Option}
use aries.Core.Errors.{GoError}

-- The states of a sandbox's access, STATE_UNSPECIFIED first.
pub data State : Type 0 where
  unspecified registering ready releasing released : State

pub record Target : Type 0 where
  pub runtime_id : Bytes
  pub workdir : Bytes
  pub exec_user : Bytes

-- `target` and `metadata` are nil-able messages; the metadata is its task id.
pub record RegisterRequest : Type 0 where
  pub sandbox_id : Bytes
  pub target : Option Target
  pub metadata : Option Bytes

pub record Endpoint : Type 0 where
  pub port : ℕ
  pub user : Bytes
  pub transport : Bytes

pub record Artifact : Type 0 where
  pub name : Bytes
  pub status : Bytes
  pub size : ℤ
  pub sha256 : Bytes

-- The two error texts hold the error that they are the text of.
pub record Access : Type 0 where
  pub sandbox_id : Bytes
  pub state : State
  pub endpoint : Option Endpoint
  pub artifacts : List Artifact
  pub error : Option GoError
  pub cleanup_error : Option GoError

-- The goroutine that an entry has running: one at most, as the guards on `busy` start none beside it.
pub data Running : Type 0 where
  register release : Running

-- `native` and `cancel` say whether the pointer is set. `operation` numbers the channels an entry
-- has had, 0 for none. `running` and `cancelled` are additions: the goroutine at work and whether
-- the registration's context was cancelled.
pub record Entry : Type 0 where
  pub request : Option RegisterRequest
  pub access : Access
  pub native : Bool
  pub busy : Bool
  pub operation : ℕ
  pub cancel : Bool
  pub running : Option Running
  pub cancelled : Bool

-- `registered` is an addition: the ids whose registration goroutine was started, latest first.
pub record Server : Type 0 where
  pub entries : List (Bytes × Entry)
  pub closing : Bool
  pub registered : List Bytes

-- The status codes of the refusals.
pub data Code : Type 0 where
  invalid_argument already_exists failed_precondition not_found : Code

-- What a call comes to at once: a refusal, an answer, or the channel that it waits on.
pub data Reply : Type 0 where
  refused : Code → Reply
  answer : Access → Reply
  waiting : ℕ → Reply
