-- ===== src/Audit/Wake.antt =====
-- pkg/bridge/internal/bridgekit/audit.go: no signal to the writer's goroutine is lost.
use aries.Base.{
  Bool, true, false, List, [], ◌∷◌, Option, some, Bytes, ◌≡◌, ◌&&◌, ◌||◌, not, refl, arith, is_none,
  Result, ok, err, Bool-cases, inl, inr, suc,
}
use aries.Core.Errors.{GoError, wrapped, message}
use aries.Audit.State.{Record, AuditEntry, Work, waiting, finishing, finished, AuditWriter, Outcome}
use aries.Audit.Writer.{
  new_audit_writer, latch, report, charge_entry, enqueue_lines, enqueue_raw, render_line, enqueue,
  seal, persist_structured, persist_raw, persist_sync, persist, finish_files, look, run_from,
  turn_worker,
}
use aries.Audit.Steps.{Step, Reachable, enqueue_call, latch_call, seal_call, turn, start, next}

abbrev pub is_waiting : Work → Bool
is_waiting waiting = true
is_waiting _ = false

abbrev pub is_closing : Work → Bool
is_closing (finishing _) = true
is_closing finished = true
is_closing _ = false

abbrev pub is_empty : List AuditEntry → Bool
is_empty [] = true
is_empty (e ∷ es) = false

-- A goroutine that waits has a signal coming if there is anything to do, and one that finishes left
-- nothing and was told to.
abbrev pub IsAwake : AuditWriter → Type 0
IsAwake w =
    ((is_waiting w.work && (not (is_empty w.pending) || w.sealed) && not w.wake) ≡ false)
    × ((is_closing w.work && not (w.sealed && is_empty w.pending)) ≡ false)

latch-IsAwake : (e : Option GoError) (w : AuditWriter) → IsAwake w → IsAwake (latch e w)
unfolding latch
latch-IsAwake e w h = h

charge_entry-IsAwake :
    (structured raw : Bytes) (w : AuditWriter)
    → w.sealed ≡ false
    → IsAwake w
    → IsAwake (charge_entry structured raw w)
unfolding charge_entry latch
charge_entry-IsAwake structured raw w unsealed h = ground (arith, h, unsealed)

enqueue_lines-IsAwake :
    (structured raw : Result GoError Bytes) (w : AuditWriter)
    → w.sealed ≡ false
    → IsAwake w
    → IsAwake (enqueue_lines structured raw w)
enqueue_lines-IsAwake (err e) raw w unsealed h =
    latch-IsAwake (some (wrapped "marshal structured audit" e)) w h
enqueue_lines-IsAwake (ok line) raw w unsealed h = rendered (render_line w.raw raw)
  where
    rendered : (r : Result GoError Bytes) → IsAwake (enqueue_raw line r w)
    rendered (err e) = latch-IsAwake (some (wrapped "render raw audit" e)) w h
    rendered (ok bytes) = charge_entry-IsAwake line bytes w unsealed h

enqueue-IsAwake :
    (structured raw : Record) (timestamp : Bytes) (w : AuditWriter)
    → IsAwake w
    → IsAwake (enqueue structured raw timestamp w)
unfolding enqueue
enqueue-IsAwake structured raw timestamp w h = elim (Bool-cases (is_none w.err)) [
  | inr failed ↦ rw failed h
  | inl fine ↦ elim (Bool-cases w.sealed) [
    | inl sealed ↦ ground (
      arith,
      fine,
      sealed,
      h,
      latch-IsAwake (some (message "enqueue audit after seal")) (record w { calls = suc w.calls })
          h,
    )
    | inr unsealed ↦ ground (
      arith,
      fine,
      unsealed,
      enqueue_lines-IsAwake (structured (suc w.sequence) timestamp) (raw (suc w.sequence) timestamp)
          (record w { calls = suc w.calls }) unsealed h,
    )
  ]
]

turn_worker-IsAwake : (o : Outcome) (w : AuditWriter) → IsAwake w → IsAwake (turn_worker o w)
unfolding run_from look persist finish_files persist_structured persist_raw persist_sync report
    latch
turn_worker-IsAwake o w h = ground (arith, h)

-- Whatever the order of calls and turns: while the goroutine waits for a signal, there is one if an
-- entry is pending or the writer is sealed, so that no record and no seal is overlooked; and a
-- goroutine that closes the files was told to and has left no entry behind.
pub Reachable-IsAwake :
    (structured raw : Bool) (w : AuditWriter) → Reachable structured raw w → IsAwake w
Reachable-IsAwake structured raw w start = unfold new_audit_writer in (refl, refl)
Reachable-IsAwake structured raw w (next {w = v} before step) =
    stepped v w step (Reachable-IsAwake structured raw v before)
  where
    stepped : (v w : AuditWriter) → Step v w → IsAwake v → IsAwake w
    stepped v w (enqueue_call s r at) h = enqueue-IsAwake s r at v h
    stepped v w (latch_call e) h = latch-IsAwake e v h
    stepped v w seal_call h = unfold seal in (ground (arith, h), ground (arith, h))
    stepped v w (turn o) h = turn_worker-IsAwake o v h
