-- ===== src/Audit/Complete.antt =====
-- pkg/bridge/internal/bridgekit/audit.go: a writer without an error has lost nothing.
use aries.Base.{
  suc, Bool, true, false, List, [], ◌∷◌, append-nil, Option, none, some, Bytes, ◌≡◌, ◌⊎◌, inl, inr,
  refl, sym, ap, ◌∙◌, subst, arith, Result, ok, err, Bool-cases, Option-cases, List-cases,
}
use aries.Core.Errors.{GoError, wrapped, message, join}
use aries.Audit.State.{
  Record, AuditEntry, Stage, Final, Work, waiting, looking, persisting, finishing, finished,
  AuditWriter, Outcome, write_structured, write_raw, sync_structured, sync_raw,
  last_sync_structured, last_sync_raw, close_structured, close_raw,
}
use aries.Audit.Writer.{
  await_seal, new_audit_writer, latch, report, enqueue_lines, enqueue_raw, render_line, enqueue,
  seal, persist_structured, persist_raw, persist_sync, persist, finish_files, look, run_from,
  turn_worker,
}
use aries.Audit.Steps.{Step, Reachable, enqueue_call, latch_call, seal_call, turn, start, next}
use aries.Audit.Log.{
  unwritten, unwritten_raw, structured_lines, raw_lines, Holds, Complete, Holds-written,
  latch-keeps, latch_error, charge_entry-cases, accept-Complete, persist_sync-eq,
  persist_structured-eq, persist_raw-eq,
}
use aries.Audit.Wake.{IsAwake, Reachable-IsAwake}

-- Where the goroutine stands matters only by the line in its hand.
at_work :
    (work : Work) (w : AuditWriter)
    → w.work ≡ work
    → Complete w
    → Complete (record w { work = work })
at_work work w h complete =
    subst
      (λ k.
        (w.calls ≡ w.sequence)
        × Holds w.structured w.structured_log (structured_lines (unwritten k w.pending))
            (structured_lines w.accepted)
        × Holds w.raw w.raw_log (raw_lines (unwritten_raw k w.pending)) (raw_lines w.accepted))
      h complete

persist-Complete :
    (stage : Stage) (e : AuditEntry) (o : Outcome) (w : AuditWriter)
    → Complete (record w { work = persisting stage e })
    → (persist stage e o w).err ≡ none
    → Complete (persist stage e o w)
unfolding persist
persist-Complete write_structured e o w (count, structured, raw) fine =
    subst (λ x. Complete (record x { work = persisting write_raw e }))
      (sym (persist_structured-eq e o w fine))
      (
        count,
        Holds-written w.structured w.structured_log (structured_lines w.pending)
            (structured_lines w.accepted) e.structured structured,
        raw,
      )
persist-Complete write_raw e o w (count, structured, raw) fine =
    subst (λ x. Complete (record x { work = persisting sync_structured e }))
      (sym (persist_raw-eq e o w fine))
      (
        count,
        structured,
        Holds-written w.raw w.raw_log (raw_lines w.pending) (raw_lines w.accepted) e.raw raw,
      )
persist-Complete sync_structured e o w complete fine =
    subst (λ x. Complete (record x { work = persisting sync_raw e }))
      (sym (persist_sync-eq w.structured "structured sync" o w fine)) complete
persist-Complete sync_raw e o w complete fine =
    subst (λ x. Complete (record x { work = looking }))
      (sym (persist_sync-eq w.raw "raw sync" o w fine)) complete

finish_files-Complete :
    (final : Final) (o : Outcome) (w : AuditWriter)
    → Complete (record w { work = finishing final })
    → (finish_files final o w).err ≡ none
    → Complete (finish_files final o w)
unfolding finish_files
finish_files-Complete last_sync_structured o w complete fine =
    subst (λ x. Complete (record x { work = finishing last_sync_raw }))
      (sym (persist_sync-eq w.structured "final structured sync" o w fine)) complete
finish_files-Complete last_sync_raw o w complete fine =
    subst (λ x. Complete (record x { work = finishing close_structured }))
      (sym (persist_sync-eq w.raw "final raw sync" o w fine)) complete
finish_files-Complete close_structured o w complete fine =
    subst (λ x. Complete (record x { work = finishing close_raw }))
      (sym (persist_sync-eq w.structured "structured close" o w fine)) complete
finish_files-Complete close_raw o w complete fine =
    subst (λ x. Complete (record x { work = finished }))
      (sym (persist_sync-eq w.raw "raw close" o w fine)) complete

look-cases :
    (w : AuditWriter)
    → (look w ≡ record w { work = finishing last_sync_structured })
      ⊎ ((look w ≡ record w { work = waiting })
          ⊎ ((e : AuditEntry) × (es : List AuditEntry) × (w.pending ≡ e ∷ es)
              × (look w ≡ record w { pending = es; work = persisting write_structured e })))
unfolding look
look-cases w = elim (List-cases w.pending) [
  | inr (e, es, more) ↦ inr (inr (e, es, more, ground (arith, more)))
  | inl empty ↦ elim (Bool-cases w.sealed) [
    | inl sealed ↦ inl (ground (arith, empty, sealed))
    | inr unsealed ↦ inr (inl (ground (arith, empty, unsealed)))
  ]
]

look-Complete : (w : AuditWriter) → Complete (record w { work = looking }) → Complete (look w)
look-Complete w complete = elim (look-cases w) [
  | inl eq ↦ subst Complete (sym eq) complete
  | inr (inl eq) ↦ subst Complete (sym eq) complete
  | inr (inr (e, es, more, eq)) ↦ subst Complete (sym eq) (
      subst
        (λ l.
          (w.calls ≡ w.sequence)
          × Holds w.structured w.structured_log (structured_lines l) (structured_lines w.accepted)
          × Holds w.raw w.raw_log (raw_lines l) (raw_lines w.accepted))
        more complete)
]

wake-Complete :
    (o : Outcome) (w : AuditWriter)
    → Complete (record w { work = waiting })
    → w.work ≡ waiting
    → Complete (run_from waiting o w)
unfolding run_from
wake-Complete o w complete h = elim (Bool-cases w.wake) [
  | inl awake ↦ subst Complete (sym (woken awake)) complete
  | inr asleep ↦ subst Complete (sym (stays asleep)) (
      subst
        (λ k.
          (w.calls ≡ w.sequence)
          × Holds w.structured w.structured_log (structured_lines (unwritten k w.pending))
              (structured_lines w.accepted)
          × Holds w.raw w.raw_log (raw_lines (unwritten_raw k w.pending)) (raw_lines w.accepted))
        (sym h) complete)
]
  where
    woken : w.wake ≡ true → run_from waiting o w ≡ record w { wake = false; work = looking }
    woken h = ground (arith, h)

    stays : w.wake ≡ false → run_from waiting o w ≡ w
    stays h = ground (arith, h)

run_from-Complete :
    (work : Work) (o : Outcome) (w : AuditWriter)
    → w.work ≡ work
    → Complete w
    → (run_from work o w).err ≡ none
    → Complete (run_from work o w)
unfolding run_from
run_from-Complete waiting o w h complete fine = wake-Complete o w (at_work waiting w h complete) h
run_from-Complete looking o w h complete fine = look-Complete w (at_work looking w h complete)
run_from-Complete (persisting stage e) o w h complete fine =
    persist-Complete stage e o w (at_work (persisting stage e) w h complete) fine
run_from-Complete (finishing final) o w h complete fine =
    finish_files-Complete final o w (at_work (finishing final) w h complete) fine
run_from-Complete finished o w h complete fine = complete

turn_worker-keeps : (o : Outcome) (w : AuditWriter) → (turn_worker o w).err ≡ none → w.err ≡ none
unfolding run_from look persist finish_files persist_structured persist_raw persist_sync report
    latch join
turn_worker-keeps o w fine = ground (arith, fine)

enqueue_lines-Complete :
    (structured raw : Result GoError Bytes) (w : AuditWriter)
    → Complete w
    → (enqueue_lines structured raw (record w { calls = suc w.calls })).err ≡ none
    → Complete (enqueue_lines structured raw (record w { calls = suc w.calls }))
enqueue_lines-Complete (err e) raw w complete fine =
    absurd
      (latch_error (wrapped "marshal structured audit" e) (record w { calls = suc w.calls }) fine)
enqueue_lines-Complete (ok line) raw w complete fine = rendered (render_line w.raw raw) fine
  where
    v : AuditWriter
    v = record w { calls = suc w.calls }

    rendered :
        (r : Result GoError Bytes)
        → (enqueue_raw line r v).err ≡ none
        → Complete (enqueue_raw line r v)
    rendered (err e) fine = absurd (latch_error (wrapped "render raw audit" e) v fine)
    rendered (ok bytes) fine = elim (charge_entry-cases line bytes v) [
      | inl (eq, _) ↦
          subst Complete (sym eq)
            (accept-Complete (record { structured = line; raw = bytes }) w complete)
      | inr (e, eq) ↦ absurd (latch_error e v (sym (ap (λ x. x.err) eq) ∙ fine))
    ]

enqueue-Complete :
    (structured raw : Record) (timestamp : Bytes) (w : AuditWriter)
    → Complete w
    → w.err ≡ none
    → (enqueue structured raw timestamp w).err ≡ none
    → Complete (enqueue structured raw timestamp w)
unfolding enqueue
enqueue-Complete structured raw timestamp w complete clean fine = elim (Bool-cases w.sealed) [
  | inl sealed ↦ absurd (
      latch_error (message "enqueue audit after seal") (record w { calls = suc w.calls })
        (ground (arith, clean, sealed, fine)))
  | inr unsealed ↦ subst Complete (sym (opened unsealed)) (
      enqueue_lines-Complete (structured (suc w.sequence) timestamp)
        (raw (suc w.sequence) timestamp) w complete
        (sym (ap (λ x. x.err) (opened unsealed)) ∙ fine))
]
  where
    opened :
        w.sealed ≡ false
        → enqueue structured raw timestamp w
          ≡ enqueue_lines
              (structured (suc w.sequence) timestamp)
              (raw (suc w.sequence) timestamp)
              (record w { calls = suc w.calls })
    opened h = ground (arith, clean, h)

enqueue-keeps :
    (structured raw : Record) (timestamp : Bytes) (w : AuditWriter)
    → (enqueue structured raw timestamp w).err ≡ none
    → w.err ≡ none
unfolding enqueue
enqueue-keeps structured raw timestamp w fine = elim (Option-cases w.err) [
  | inl clean ↦ clean
  | inr (e, failed) ↦ absurd (ground (arith, failed, fine))
]

latch-eq : (e : Option GoError) (w : AuditWriter) → (latch e w).err ≡ none → latch e w ≡ w
unfolding latch join
latch-eq e w fine = ground (arith, fine)

Step-Complete :
    (v w : AuditWriter) → Step v w → (v.err ≡ none → Complete v) → w.err ≡ none → Complete w
Step-Complete v w (enqueue_call s r at) h fine =
    let clean = enqueue-keeps s r at v fine in enqueue-Complete s r at v (h clean) clean fine
Step-Complete v w (latch_call e) h fine =
    subst Complete (sym (latch-eq e v fine)) (h (latch-keeps e v fine))
Step-Complete v w seal_call h fine = unfold seal in h (unfold seal in fine)
Step-Complete v w (turn o) h fine =
    run_from-Complete v.work o v refl (h (turn_worker-keeps o v fine)) fine

Reachable-Complete :
    (structured raw : Bool) (w : AuditWriter)
    → Reachable structured raw w
    → w.err ≡ none
    → Complete w
Reachable-Complete structured raw w start fine =
    unfold new_audit_writer in (refl, empty structured, empty raw)
  where
    empty : (there : Bool) → Holds there [] [] []
    empty true = refl
    empty false = refl
Reachable-Complete structured raw w (next {w = v} before step) fine =
    Step-Complete v w step (Reachable-Complete structured raw v before) fine

-- All lines are in the file, if there is one.
abbrev pub Logged : Bool → List Bytes → List Bytes → Type 0
Logged true log all = log ≡ all
Logged false log all = log ≡ []

Holds-Logged : (there : Bool) (log all : List Bytes) → Holds there log [] all → Logged there log all
Holds-Logged true log all h = sym (append-nil log) ∙ h
Holds-Logged false log all h = h

returned_nil : (w : AuditWriter) → await_seal w ≡ some none → (w.work ≡ finished) × (w.err ≡ none)
unfolding await_seal
returned_nil w h = (ground (arith, h), ground (arith, h))

nothing_left : (w : AuditWriter) → IsAwake w → w.work ≡ finished → w.pending ≡ []
nothing_left w awake done = elim (List-cases w.pending) [
  | inl empty ↦ empty
  | inr (e, es, more) ↦ absurd (ground (arith, more, done, awake))
]

-- If SealAndWait returns no error then nothing was lost: every call of Enqueue was accepted, and
-- each file that the writer has holds the lines of all accepted records in their order, each of
-- them written in full.
pub await_seal-Logged :
    (structured raw : Bool) (w : AuditWriter)
    → Reachable structured raw w
    → await_seal w ≡ some none
    → (w.calls ≡ w.sequence)
      × Logged w.structured w.structured_log (structured_lines w.accepted)
      × Logged w.raw w.raw_log (raw_lines w.accepted)
await_seal-Logged structured raw w reached returned =
    let (done, fine) = returned_nil w returned in
    let none_left = nothing_left w (Reachable-IsAwake structured raw w reached) done in
    let (count, structured_holds, raw_holds) = Reachable-Complete structured raw w reached fine in
    (
      count,
      Holds-Logged w.structured w.structured_log (structured_lines w.accepted) (
          subst
            (λ l.
              Holds w.structured w.structured_log (structured_lines l)
                (structured_lines w.accepted))
            (ap (λ k. unwritten k w.pending) done ∙ none_left) structured_holds),
      Holds-Logged w.raw w.raw_log (raw_lines w.accepted) (
          subst (λ l. Holds w.raw w.raw_log (raw_lines l) (raw_lines w.accepted))
            (ap (λ k. unwritten_raw k w.pending) done ∙ none_left) raw_holds),
    )
