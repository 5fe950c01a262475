-- ===== src/Audit/State.antt =====
-- pkg/bridge/internal/bridgekit/audit.go: the writer's state, and where its goroutine stands.
use aries.Base.{ℕ, Bool, Bytes, List, Option, Result}
use aries.Core.Errors.{GoError}

-- A record, as `marshal` makes a line of it once it is stamped with its sequence and time, and a raw
-- record.
abbrev pub Record : Type 0
Record = ℕ → Bytes → Result GoError Bytes

pub record AuditEntry : Type 0 where
  pub structured : Bytes
  pub raw : Bytes

-- The calls of `persist`, and those of `finish`.
pub data Stage : Type 0 where
  write_structured write_raw sync_structured sync_raw : Stage

pub data Final : Type 0 where
  last_sync_structured last_sync_raw close_structured close_raw : Final

-- Where `run` stands: at the receive from `wake`, at the lock of its inner loop, in `persist` or
-- `finish` before the call named, or behind `close(done)`.
pub data Work : Type 0 where
  waiting looking : Work
  persisting : Stage → AuditEntry → Work
  finishing : Final → Work
  finished : Work

-- `structured` and `raw` say whether the file is there, `wake` whether the channel holds a signal.
-- The last four are additions: the calls of Enqueue, the entries that were accepted, and what
-- the calls of Write put into each file, one item for each call.
pub record AuditWriter : Type 0 where
  pub structured : Bool
  pub raw : Bool
  pub pending : List AuditEntry
  pub sequence : ℕ
  pub bytes : ℕ
  pub sealed : Bool
  pub err : Option GoError
  pub wake : Bool
  pub work : Work
  pub calls : ℕ
  pub accepted : List AuditEntry
  pub structured_log : List Bytes
  pub raw_log : List Bytes

-- What a call on a file returned; a sync or a close has no count.
pub record Outcome : Type 0 where
  pub written : ℕ
  pub failure : Option GoError
