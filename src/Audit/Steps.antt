-- ===== src/Audit/Steps.antt =====
-- pkg/bridge/internal/bridgekit/audit.go as a transition system: calls of the writer and turns of
-- its goroutine in any order, with whatever the files return.
use aries.Base.{Bool, Bytes, Option}
use aries.Core.Errors.{GoError}
use aries.Audit.State.{Record, AuditWriter, Outcome}
use aries.Audit.Writer.{new_audit_writer, enqueue, latch, seal, turn_worker}

pub data Step (w : AuditWriter) : AuditWriter → Type 0 where
  enqueue_call :
      (structured raw : Record) (timestamp : Bytes) → Step w (enqueue structured raw timestamp w)
  latch_call : (e : Option GoError) → Step w (latch e w)
  seal_call : Step w (seal w)
  turn : (o : Outcome) → Step w (turn_worker o w)

-- The states of a writer on the files that are there.
pub data Reachable (structured raw : Bool) : AuditWriter → Type 0 where
  start : Reachable structured raw (new_audit_writer structured raw)
  next : {w w' : AuditWriter} → Reachable structured raw w → Step w w' → Reachable structured raw w'
