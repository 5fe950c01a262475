-- ===== src/Audit/Writer.antt =====
-- pkg/bridge/internal/bridgekit/audit.go: the calls of the writer, and the turns of its goroutine.
use aries.Base.{
  ℕ, suc, ◌+◌, ◌-◌, ◌*◌, Bool, true, false, [], ◌∷◌, ◌++◌, Option, none, some, ltb, ◌==◌,
  if◌then◌else◌, String, Bytes, length, take, Result, ok, err, is_none,
}
use aries.Core.Errors.{GoError, message, wrapped, join, non_nil}
use aries.Audit.State.{
  Record, AuditEntry, Stage, write_structured, write_raw, sync_structured, sync_raw, Final,
  last_sync_structured, last_sync_raw, close_structured, close_raw, Work, waiting, looking,
  persisting, finishing, finished, AuditWriter, Outcome,
}

-- 256 << 20
abbrev pub max_tool_log_bytes : ℕ
max_tool_log_bytes = 256 * 1048576

unfoldable pub new_audit_writer : Bool → Bool → AuditWriter
new_audit_writer structured raw = record {
  structured = structured;
  raw = raw;
  pending = [];
  sequence = 0;
  bytes = 0;
  sealed = false;
  err = none;
  wake = false;
  work = waiting;
  calls = 0;
  accepted = [];
  structured_log = [];
  raw_log = [];
}

-- `latchLocked`, and `Latch`.
unfoldable pub latch : Option GoError → AuditWriter → AuditWriter
latch e w = record w { err = join (non_nil (w.err ∷ e ∷ [])) }

abbrev pub accept : AuditEntry → AuditWriter → AuditWriter
accept entry w = record w {
  sequence = suc w.sequence;
  bytes = w.bytes + (length entry.structured + length entry.raw);
  pending = w.pending ++ entry ∷ [];
  wake = true;
  accepted = w.accepted ++ entry ∷ [];
}

-- `Enqueue` once the two lines are there: the budget, then the entry. The bytes never exceed the
-- budget, so that the subtraction is the source's.
unfoldable pub charge_entry : Bytes → Bytes → AuditWriter → AuditWriter
charge_entry structured raw w =
    if ltb (max_tool_log_bytes - w.bytes) (length structured + length raw)
    then latch (some (message "combined audit exceeds 268435456 bytes")) w
    else accept (record { structured = structured; raw = raw }) w

-- The raw line, rendered only if the run keeps a raw log.
unfoldable pub render_line : Bool → Result GoError Bytes → Result GoError Bytes
render_line false rendered = ok []
render_line true rendered = rendered

abbrev pub enqueue_raw : Bytes → Result GoError Bytes → AuditWriter → AuditWriter
enqueue_raw structured (err e) w = latch (some (wrapped "render raw audit" e)) w
enqueue_raw structured (ok raw) w = charge_entry structured raw w

abbrev pub enqueue_lines : Result GoError Bytes → Result GoError Bytes → AuditWriter → AuditWriter
enqueue_lines (err e) rendered w = latch (some (wrapped "marshal structured audit" e)) w
enqueue_lines (ok structured) rendered w = enqueue_raw structured (render_line w.raw rendered) w

unfoldable pub enqueue : Record → Record → Bytes → AuditWriter → AuditWriter
enqueue structured raw timestamp w =
    let w' = record w { calls = suc w.calls } in
    if is_none w.err
    then if w.sealed
      then latch (some (message "enqueue audit after seal")) w'
      else enqueue_lines (structured (suc w.sequence) timestamp) (raw (suc w.sequence) timestamp) w'
    else w'

-- `SealAndWait` up to its wait.
unfoldable pub seal : AuditWriter → AuditWriter
seal w = record w { sealed = true; wake = true }

-- The error of a write: an incomplete one is an error of its own.
unfoldable pub write_failure : Bytes → Outcome → Option GoError
write_failure line o = elim o.failure [
  | some e ↦ some e
  | none ↦ if o.written == length line then none else some (message "short write")
]

-- `persistLine` and `persistSync`: a missing file is passed over, an error latched.
unfoldable pub report : String → Option GoError → AuditWriter → AuditWriter
report operation none w = w
report operation (some e) w = latch (some (wrapped operation e)) w

unfoldable pub persist_structured : AuditEntry → Outcome → AuditWriter → AuditWriter
persist_structured entry o w =
    if w.structured
    then report "structured write" (write_failure entry.structured o)
        (record w { structured_log = w.structured_log ++ take o.written entry.structured ∷ [] })
    else w

unfoldable pub persist_raw : AuditEntry → Outcome → AuditWriter → AuditWriter
persist_raw entry o w =
    if w.raw
    then report "raw write" (write_failure entry.raw o)
        (record w { raw_log = w.raw_log ++ take o.written entry.raw ∷ [] })
    else w

-- A sync or a close of a file that may be missing.
unfoldable pub persist_sync : Bool → String → Outcome → AuditWriter → AuditWriter
persist_sync there operation o w = if there then report operation o.failure w else w

abbrev pub go_to : Work → AuditWriter → AuditWriter
go_to work w = record w { work = work }

-- One call of `persist`.
unfoldable pub persist : Stage → AuditEntry → Outcome → AuditWriter → AuditWriter
persist write_structured e o w = go_to (persisting write_raw e) (persist_structured e o w)
persist write_raw e o w = go_to (persisting sync_structured e) (persist_raw e o w)
persist sync_structured e o w =
    go_to (persisting sync_raw e) (persist_sync w.structured "structured sync" o w)
persist sync_raw e o w = go_to looking (persist_sync w.raw "raw sync" o w)

-- One call of `finish`.
unfoldable pub finish_files : Final → Outcome → AuditWriter → AuditWriter
finish_files last_sync_structured o w =
    go_to (finishing last_sync_raw) (persist_sync w.structured "final structured sync" o w)
finish_files last_sync_raw o w =
    go_to (finishing close_structured) (persist_sync w.raw "final raw sync" o w)
finish_files close_structured o w =
    go_to (finishing close_raw) (persist_sync w.structured "structured close" o w)
finish_files close_raw o w = go_to finished (persist_sync w.raw "raw close" o w)

-- The inner loop of `run` at its lock.
unfoldable pub look : AuditWriter → AuditWriter
look w = elim w.pending [
  | [] ↦ if w.sealed then go_to (finishing last_sync_structured) w else go_to waiting w
  | e ∷ es ↦ record w { pending = es; work = persisting write_structured e }
]

-- One turn of `run` from where it stands; it stays there while no signal has come, and at its end.
unfoldable pub run_from : Work → Outcome → AuditWriter → AuditWriter
run_from waiting o w = if w.wake then record w { wake = false; work = looking } else w
run_from looking o w = look w
run_from (persisting stage e) o w = persist stage e o w
run_from (finishing final) o w = finish_files final o w
run_from finished o w = w

abbrev pub turn_worker : Outcome → AuditWriter → AuditWriter
turn_worker o w = run_from w.work o w

-- What `SealAndWait` returns once `done` is closed.
unfoldable pub await_seal : AuditWriter → Option (Option GoError)
await_seal w = elim w.work [ finished ↦ some w.err | _ ↦ none ]
