-- ===== src/Audit/Budget.antt =====
-- pkg/bridge/internal/bridgekit/audit.go: the sequence of the records and the byte budget.
use aries.Base.{
  ℕ, suc, ◌+◌, ◌<◌, ◌≤◌, Bool, true, false, List, [], ◌∷◌, ◌++◌, Option, some, Bytes, length,
  length-append, ◌≡◌, ◌⊎◌, inl, inr, refl, sym, ap, ◌∙◌, subst, arith, is_none, Result, ok, err,
  Bool-cases,
}
use aries.Core.Errors.{GoError, wrapped, message}
use aries.Audit.State.{Record, AuditEntry, AuditWriter, Outcome}
use aries.Audit.Writer.{
  accept, max_tool_log_bytes, new_audit_writer, latch, report, charge_entry, enqueue_lines,
  enqueue_raw, render_line, enqueue, seal, persist_structured, persist_raw, persist_sync, persist,
  finish_files, look, run_from, turn_worker,
}
use aries.Audit.Steps.{Step, Reachable, enqueue_call, latch_call, seal_call, turn, start, next}
use aries.Audit.Log.{charge_entry-cases}

-- The bytes of the lines of some entries.
abbrev pub total : List AuditEntry → ℕ
total [] = 0
total (e ∷ es) = (length e.structured + length e.raw) + total es

total-snoc :
    (es : List AuditEntry) (e : AuditEntry)
    → total (es ++ e ∷ []) ≡ total es + (length e.structured + length e.raw)
total-snoc [] e = omega arith
total-snoc (x ∷ es) e = omega (arith, total-snoc es e)

-- A record whose line, stamped with a number, is one of that number.
abbrev pub Says : (ℕ → Bytes → Type 0) → Record → Type 0
Says Is record' = (n : ℕ) (timestamp line : Bytes) → record' n timestamp ≡ ok line → Is n line

enqueue-cases :
    (structured raw : Record) (timestamp : Bytes) (w : AuditWriter)
    → (enqueue structured raw timestamp w ≡ record w { calls = suc w.calls })
      ⊎ ((enqueue structured raw timestamp w
            ≡ latch (some (message "enqueue audit after seal")) (record w { calls = suc w.calls }))
          ⊎ (enqueue structured raw timestamp w
              ≡ enqueue_lines
                  (structured (suc w.sequence) timestamp)
                  (raw (suc w.sequence) timestamp)
                  (record w { calls = suc w.calls })))
unfolding enqueue
enqueue-cases structured raw timestamp w = elim (Bool-cases (is_none w.err)) [
  | inr failed ↦ inl (ground (arith, failed))
  | inl clean ↦ elim (Bool-cases w.sealed) [
    | inl sealed ↦ inr (inl (ground (arith, clean, sealed)))
    | inr unsealed ↦ inr (inr (ground (arith, clean, unsealed)))
  ]
]

-- A turn of the goroutine leaves what was accepted alone.
turn_worker-keeps_accepted :
    (o : Outcome) (w : AuditWriter)
    → ((turn_worker o w).accepted ≡ w.accepted)
      × ((turn_worker o w).sequence ≡ w.sequence)
      × ((turn_worker o w).bytes ≡ w.bytes)
      × ((turn_worker o w).raw ≡ w.raw)
unfolding run_from look persist finish_files persist_structured persist_raw persist_sync report
    latch
turn_worker-keeps_accepted o w = (ground arith, ground arith, ground arith, ground arith)

-- `Is` and `IsRaw` say of a line that it is one of a number; `kept` whether there is a raw log.
module _ (Is IsRaw : ℕ → Bytes → Type 0) (kept : Bool) where
  -- The entries carry the numbers behind `n`, one after another.
  abbrev pub Numbered : ℕ → List AuditEntry → Type 0
  Numbered n [] = Unit
  Numbered n (e ∷ es) =
      Is (suc n) e.structured × ((kept ≡ false) ⊎ IsRaw (suc n) e.raw) × Numbered (suc n) es

  abbrev pub WithinBudget : AuditWriter → Type 0
  WithinBudget w =
      (w.raw ≡ kept)
      × Numbered 0 w.accepted
      × (length w.accepted ≡ w.sequence)
      × (total w.accepted ≡ w.bytes)
      × (w.bytes ≤ max_tool_log_bytes)

  -- Every record that was enqueued on the way says the numbers.
  abbrev pub StepSays : {v w : AuditWriter} → Step v w → Type 0
  StepSays (enqueue_call s r at) = Says Is s × Says IsRaw r
  StepSays (latch_call e) = Unit
  StepSays seal_call = Unit
  StepSays (turn o) = Unit

  abbrev pub AllSay : {structured : Bool} {w : AuditWriter} → Reachable structured kept w → Type 0
  AllSay start = Unit
  AllSay (next before step) = AllSay before × StepSays step

  Numbered-snoc :
      (n m : ℕ) (es : List AuditEntry) (e : AuditEntry)
      → Numbered n es
      → n + length es ≡ m
      → Is (suc m) e.structured
      → (kept ≡ false) ⊎ IsRaw (suc m) e.raw
      → Numbered n (es ++ e ∷ [])
  Numbered-snoc n m [] e h same line raw_line =
      let at : n ≡ m = same_count same in
      (
        subst (λ k. Is (suc k) e.structured) (sym at) line,
        subst (λ k. (kept ≡ false) ⊎ IsRaw (suc k) e.raw) (sym at) raw_line,
        tt,
      )
    where
      same_count : n + length {A = AuditEntry} [] ≡ m → n ≡ m
      same_count same = ground (arith, same)
  Numbered-snoc n m (x ∷ es) e (first, raw_first, rest) same line raw_line =
      (first, raw_first, Numbered-snoc (suc n) m es e rest (next_count same) line raw_line)
    where
      next_count : n + length (x ∷ es) ≡ m → suc n + length es ≡ m
      next_count same = ground (arith, same)

  accept-WithinBudget :
      (structured raw : Bytes) (w : AuditWriter)
      → WithinBudget w
      → Is (suc w.sequence) structured
      → (kept ≡ false) ⊎ IsRaw (suc w.sequence) raw
      → (w.bytes + (length structured + length raw) ≤ max_tool_log_bytes)
        ⊎ (max_tool_log_bytes < w.bytes)
      → WithinBudget (accept (record { structured = structured; raw = raw }) w)
  accept-WithinBudget structured raw w (log, numbered, counted, totalled, within) line raw_line
        room =
      let e : AuditEntry = record { structured = structured; raw = raw } in
      (
        log,
        Numbered-snoc 0 w.sequence w.accepted e numbered (ground (arith, counted)) line raw_line,
        ground (arith, counted, length-append w.accepted (e ∷ [])),
        total-snoc w.accepted e ∙ ap (λ n. n + (length structured + length raw)) totalled,
        fits room,
      )
    where
      fits :
          (w.bytes + (length structured + length raw) ≤ max_tool_log_bytes)
            ⊎ (max_tool_log_bytes < w.bytes)
          → w.bytes + (length structured + length raw) ≤ max_tool_log_bytes
      fits (inl h) = h
      fits (inr h) = absurd (omega (arith, h, within))

  latch-WithinBudget :
      (e : Option GoError) (w : AuditWriter) → WithinBudget w → WithinBudget (latch e w)
  unfolding latch
  latch-WithinBudget e w h = h

  charge_entry-WithinBudget :
      (structured raw : Bytes) (w : AuditWriter)
      → WithinBudget w
      → Is (suc w.sequence) structured
      → (kept ≡ false) ⊎ IsRaw (suc w.sequence) raw
      → WithinBudget (charge_entry structured raw w)
  charge_entry-WithinBudget structured raw w h line raw_line =
      elim (charge_entry-cases structured raw w) [
        | inl (eq, room) ↦
            subst WithinBudget (sym eq) (accept-WithinBudget structured raw w h line raw_line room)
        | inr (e, eq) ↦ subst WithinBudget (sym eq) (latch-WithinBudget (some e) w h)
      ]

  rendered_line :
      (log : Bool) (rendered : Result GoError Bytes) (bytes : Bytes)
      → log ≡ kept
      → render_line log rendered ≡ ok bytes
      → (kept ≡ false) ⊎ (rendered ≡ ok bytes)
  rendered_line false rendered bytes log h = inl (sym log)
  rendered_line true rendered bytes log h = inr (unfold render_line in h)

  enqueue_lines-WithinBudget :
      (structured raw : Result GoError Bytes) (w : AuditWriter)
      → WithinBudget w
      → ((line : Bytes) → structured ≡ ok line → Is (suc w.sequence) line)
      → ((line : Bytes) → raw ≡ ok line → IsRaw (suc w.sequence) line)
      → WithinBudget (enqueue_lines structured raw w)
  enqueue_lines-WithinBudget (err e) raw w h says raw_says =
      latch-WithinBudget (some (wrapped "marshal structured audit" e)) w h
  enqueue_lines-WithinBudget (ok line) raw w h says raw_says = each (render_line w.raw raw) refl
    where
      each :
          (r : Result GoError Bytes)
          → render_line w.raw raw ≡ r
          → WithinBudget (enqueue_raw line r w)
      each (err e) eq = latch-WithinBudget (some (wrapped "render raw audit" e)) w h
      each (ok bytes) eq =
          charge_entry-WithinBudget line bytes w h (says line refl)
            (elim (rendered_line w.raw raw bytes h.0 eq) [
              | inl no_log ↦ inl no_log
              | inr same ↦ inr (raw_says bytes same)
            ])

  enqueue-WithinBudget :
      (structured raw : Record) (timestamp : Bytes) (w : AuditWriter)
      → Says Is structured
      → Says IsRaw raw
      → WithinBudget w
      → WithinBudget (enqueue structured raw timestamp w)
  enqueue-WithinBudget structured raw timestamp w says raw_says h =
      elim (enqueue-cases structured raw timestamp w) [
        | inl eq ↦ subst WithinBudget (sym eq) h
        | inr (inl eq) ↦
            subst WithinBudget (sym eq) (latch-WithinBudget _ (record w { calls = suc w.calls }) h)
        | inr (inr eq) ↦ subst WithinBudget (sym eq) (
            enqueue_lines-WithinBudget (structured (suc w.sequence) timestamp)
              (raw (suc w.sequence) timestamp) (record w { calls = suc w.calls }) h
              (says (suc w.sequence) timestamp) (raw_says (suc w.sequence) timestamp))
      ]

  turn_worker-WithinBudget :
      (o : Outcome) (w : AuditWriter) → WithinBudget w → WithinBudget (turn_worker o w)
  turn_worker-WithinBudget o w (log, numbered, counted, totalled, within) =
      let (accepted, sequence, bytes, raw) = turn_worker-keeps_accepted o w in
      (
        raw ∙ log,
        subst (Numbered 0) (sym accepted) numbered,
        rw (accepted, sequence) counted,
        rw (accepted, bytes) totalled,
        rw bytes within,
      )

  Step-WithinBudget :
      (v w : AuditWriter) (step : Step v w) → StepSays step → WithinBudget v → WithinBudget w
  Step-WithinBudget v w (enqueue_call s r at) (says, raw_says) h =
      enqueue-WithinBudget s r at v says raw_says h
  Step-WithinBudget v w (latch_call e) says h = latch-WithinBudget e v h
  Step-WithinBudget v w seal_call says h = unfold seal in h
  Step-WithinBudget v w (turn o) says h = turn_worker-WithinBudget o v h

  -- Whatever `Is` and `IsRaw` mean, if the line of every record that was enqueued, stamped with a
  -- number, is one of that number: then in every reachable state the lines of the accepted entries
  -- are of the numbers 1, 2, 3 and so on without a gap, as many as the sequence says, the raw lines
  -- too if there is a raw log; and the lines together have the bytes that are accounted for, never
  -- more than 256 MiB.
  pub Reachable-WithinBudget :
      (structured : Bool) (w : AuditWriter) (reached : Reachable structured kept w)
      → AllSay reached
      → WithinBudget w
  Reachable-WithinBudget structured w start says =
      unfold new_audit_writer in (refl, tt, refl, refl, ground arith)
  Reachable-WithinBudget structured w (next {w = v} before step) (earlier, says) =
      Step-WithinBudget v w step says (Reachable-WithinBudget structured v before earlier)
