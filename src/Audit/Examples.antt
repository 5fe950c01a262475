-- ===== src/Audit/Examples.antt =====
-- The theorems on the audit writer at a concrete run, and tests.
use aries.Base.{
  Bytes, arith, ℕ, ◌+◌, true, false, [], ◌∷◌, none, some, codes, ◌≡◌, refl, ok, is_none,
}
use aries.Core.Errors.{join}
use aries.Audit.State.{Record, AuditWriter, Outcome}
use aries.Audit.Writer.{
  new_audit_writer, latch, charge_entry, render_line, enqueue, seal, write_failure, report,
  persist_structured, persist_raw, persist_sync, persist, finish_files, look, run_from, turn_worker,
  await_seal,
}
use aries.Audit.Steps.{Reachable, enqueue_call, seal_call, turn, start, next}
use aries.Audit.Log.{structured_lines, raw_lines}
use aries.Audit.Wake.{IsAwake, Reachable-IsAwake}
use aries.Audit.Complete.{Logged, await_seal-Logged}
use aries.Audit.Budget.{Says, AllSay, WithinBudget, Reachable-WithinBudget}

-- A record whose line is one digit, its sequence, and a raw line of two bytes.
abbrev line : Record
line sequence timestamp = ok ((b'0' + sequence) ∷ [])

abbrev raw_line : Record
raw_line sequence timestamp = ok (b'r' ∷ (b'0' + sequence) ∷ [])

-- A write of `n` bytes, and a call without a count.
abbrev wrote : ℕ → Outcome
wrote n = record { written = n; failure = none }

abbrev two_records : AuditWriter
two_records =
    enqueue line raw_line (codes "t")
      (enqueue line raw_line (codes "t") (new_audit_writer true true))

abbrev reach_two : Reachable true true two_records
reach_two =
    next (next start (enqueue_call line raw_line (codes "t")))
      (enqueue_call line raw_line (codes "t"))

Reachable-IsAwake_example : IsAwake two_records
Reachable-IsAwake_example = Reachable-IsAwake true true two_records reach_two

abbrev IsLine : ℕ → Bytes → Type 0
IsLine n l = l ≡ (b'0' + n) ∷ []

abbrev IsRawLine : ℕ → Bytes → Type 0
IsRawLine n l = l ≡ b'r' ∷ (b'0' + n) ∷ []

line-Says : Says IsLine line
line-Says n timestamp l h = ground (arith, h)

raw_line-Says : Says IsRawLine raw_line
raw_line-Says n timestamp l h = ground (arith, h)

two-AllSay : AllSay IsLine IsRawLine true reach_two
two-AllSay = ((tt, (line-Says, raw_line-Says)), (line-Says, raw_line-Says))

Reachable-WithinBudget_example : WithinBudget IsLine IsRawLine true two_records
Reachable-WithinBudget_example =
    Reachable-WithinBudget IsLine IsRawLine true true two_records reach_two two-AllSay

-- The turns of one record: the lock, two writes and two syncs.
abbrev persist_one : AuditWriter → AuditWriter
persist_one w = turn_worker (wrote 0) (
    turn_worker (wrote 0) (turn_worker (wrote 2) (turn_worker (wrote 1) (turn_worker (wrote 0) w))))

abbrev closed_writer : AuditWriter
closed_writer = turn_worker (wrote 0) (
    turn_worker (wrote 0) (
      turn_worker (wrote 0) (
        turn_worker (wrote 0) (
          turn_worker (wrote 0)
            (persist_one (persist_one (turn_worker (wrote 0) (seal two_records))))))))

persist_one-Reachable :
    (w : AuditWriter) → Reachable true true w → Reachable true true (persist_one w)
persist_one-Reachable w h =
    next
      (next (next (next (next h (turn (wrote 0))) (turn (wrote 1))) (turn (wrote 2)))
        (turn (wrote 0)))
      (turn (wrote 0))

closed-Reachable : Reachable true true closed_writer
closed-Reachable =
    next
      (next
        (next
          (next
            (next
              (persist_one-Reachable _
                (persist_one-Reachable _ (next (next reach_two seal_call) (turn (wrote 0)))))
              (turn (wrote 0)))
            (turn (wrote 0)))
          (turn (wrote 0)))
        (turn (wrote 0)))
      (turn (wrote 0))

closed_fine : await_seal closed_writer ≡ some none
unfolding new_audit_writer latch charge_entry render_line enqueue seal write_failure report
    persist_structured persist_raw persist_sync persist finish_files look run_from await_seal join
closed_fine = refl

closed_log : closed_writer.structured_log ≡ codes "1" ∷ codes "2" ∷ []
unfolding new_audit_writer latch charge_entry render_line enqueue seal write_failure report
    persist_structured persist_raw persist_sync persist finish_files look run_from await_seal join
closed_log = refl

await_seal-Logged_example :
    (closed_writer.calls ≡ closed_writer.sequence)
    × Logged closed_writer.structured closed_writer.structured_log
        (structured_lines closed_writer.accepted)
    × Logged closed_writer.raw closed_writer.raw_log (raw_lines closed_writer.accepted)
await_seal-Logged_example = await_seal-Logged true true closed_writer closed-Reachable closed_fine

after_seal : is_none (enqueue line raw_line (codes "t") (seal two_records)).err ≡ false
unfolding new_audit_writer latch charge_entry render_line enqueue seal join
after_seal = refl
