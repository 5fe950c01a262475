-- ===== src/Audit/Log.antt =====
-- pkg/bridge/internal/bridgekit/audit.go: the two logs against what was accepted.
use aries.Base.{
  take, take-length, Option-cases, suc, ◌+◌, ◌-◌, ◌<◌, ◌≤◌, Bool, true, false, List, [], ◌∷◌, ◌++◌,
  map, append_assoc, Option, none, some, Bytes, length, ltb, ◌≡◌, ◌≢◌, ◌⊎◌, inl, inr, refl, sym, ap,
  ◌∙◌, subst, arith, if◌then◌else◌, String, Bool-cases,
}
use aries.Core.Errors.{GoError, message, join}
use aries.Audit.State.{
  AuditEntry, Work, waiting, looking, persisting, finishing, finished, AuditWriter, Outcome,
  write_structured, write_raw, sync_structured, sync_raw,
}
use aries.Audit.Writer.{
  write_failure, accept, max_tool_log_bytes, latch, report, charge_entry, persist_structured,
  persist_raw, persist_sync,
}

-- The entries that are accepted but not yet written to the one file, and to the other.
abbrev pub unwritten : Work → List AuditEntry → List AuditEntry
unwritten (persisting write_structured e) pending = e ∷ pending
unwritten _ pending = pending

abbrev pub unwritten_raw : Work → List AuditEntry → List AuditEntry
unwritten_raw (persisting write_structured e) pending = e ∷ pending
unwritten_raw (persisting write_raw e) pending = e ∷ pending
unwritten_raw _ pending = pending

abbrev pub structured_lines : List AuditEntry → List Bytes
structured_lines = map (λ e. e.structured)

abbrev pub raw_lines : List AuditEntry → List Bytes
raw_lines = map (λ e. e.raw)

-- A file that is there holds all lines but those that are still to come.
abbrev pub Holds : Bool → List Bytes → List Bytes → List Bytes → Type 0
Holds true log rest all = log ++ rest ≡ all
Holds false log rest all = log ≡ []

abbrev pub Complete : AuditWriter → Type 0
Complete w =
    (w.calls ≡ w.sequence)
    × Holds w.structured w.structured_log (structured_lines (unwritten w.work w.pending))
        (structured_lines w.accepted)
    × Holds w.raw w.raw_log (raw_lines (unwritten_raw w.work w.pending)) (raw_lines w.accepted)

-- The next line is written.
pub Holds-written :
    (there : Bool) (log rest all : List Bytes) (line : Bytes)
    → Holds there log (line ∷ rest) all
    → Holds there (if there then log ++ line ∷ [] else log) rest all
Holds-written true log rest all line h = append_assoc log (line ∷ []) rest ∙ h
Holds-written false log rest all line h = h

pub map-snoc :
    {B : Type 0} (f : AuditEntry → B) (xs : List AuditEntry) (e : AuditEntry)
    → map f (xs ++ e ∷ []) ≡ map f xs ++ f e ∷ []
map-snoc f [] e = refl
map-snoc f (x ∷ xs) e = ap (λ l. f x ∷ l) (map-snoc f xs e)

-- A line is accepted.
Holds-accepted :
    (f : AuditEntry → Bytes) (there : Bool) (log : List Bytes) (rest all : List AuditEntry)
    (e : AuditEntry)
    → Holds there log (map f rest) (map f all)
    → Holds there log (map f (rest ++ e ∷ [])) (map f (all ++ e ∷ []))
Holds-accepted f true log rest all e h =
    rw (map-snoc f rest e, map-snoc f all e)
      (sym (append_assoc log (map f rest) (f e ∷ [])) ∙ ap (λ l. l ++ f e ∷ []) h)
Holds-accepted f false log rest all e h = h

unwritten-snoc :
    (work : Work) (pending : List AuditEntry) (e : AuditEntry)
    → unwritten work (pending ++ e ∷ []) ≡ unwritten work pending ++ e ∷ []
unwritten-snoc waiting pending e = refl
unwritten-snoc looking pending e = refl
unwritten-snoc (persisting write_structured x) pending e = refl
unwritten-snoc (persisting write_raw x) pending e = refl
unwritten-snoc (persisting sync_structured x) pending e = refl
unwritten-snoc (persisting sync_raw x) pending e = refl
unwritten-snoc (finishing f) pending e = refl
unwritten-snoc finished pending e = refl

unwritten_raw-snoc :
    (work : Work) (pending : List AuditEntry) (e : AuditEntry)
    → unwritten_raw work (pending ++ e ∷ []) ≡ unwritten_raw work pending ++ e ∷ []
unwritten_raw-snoc waiting pending e = refl
unwritten_raw-snoc looking pending e = refl
unwritten_raw-snoc (persisting write_structured x) pending e = refl
unwritten_raw-snoc (persisting write_raw x) pending e = refl
unwritten_raw-snoc (persisting sync_structured x) pending e = refl
unwritten_raw-snoc (persisting sync_raw x) pending e = refl
unwritten_raw-snoc (finishing f) pending e = refl
unwritten_raw-snoc finished pending e = refl

pub latch-keeps : (e : Option GoError) (w : AuditWriter) → (latch e w).err ≡ none → w.err ≡ none
unfolding latch join
latch-keeps e w h = ground (arith, h)

pub latch_error : (e : GoError) (w : AuditWriter) → (latch (some e) w).err ≢ none
unfolding latch join
latch_error e w h = ground (arith, h)

-- Within the budget, or an error.
pub charge_entry-cases :
    (structured raw : Bytes) (w : AuditWriter)
    → (((charge_entry structured raw w) ≡ accept (record { structured = structured; raw = raw }) w)
        × (w.bytes + (length structured + length raw) ≤ max_tool_log_bytes
            ⊎ (max_tool_log_bytes < w.bytes)))
      ⊎ ((e : GoError) × (charge_entry structured raw w ≡ latch (some e) w))
unfolding charge_entry
charge_entry-cases structured raw w =
    elim (Bool-cases (ltb (max_tool_log_bytes - w.bytes) (length structured + length raw))) [
      | inl over ↦ inr (message "combined audit exceeds 268435456 bytes", ground (arith, over))
      | inr within ↦ inl (ground (arith, within), ground (arith, within))
    ]

pub accept-Complete :
    (e : AuditEntry) (w : AuditWriter)
    → Complete w
    → Complete (accept e (record w { calls = suc w.calls }))
accept-Complete e w (count, structured, raw) = (
  ap suc count,
  subst
      (λ l.
        Holds w.structured w.structured_log (structured_lines l)
          (structured_lines (w.accepted ++ e ∷ [])))
      (sym (unwritten-snoc w.work w.pending e))
      (Holds-accepted (λ x. x.structured) w.structured w.structured_log (unwritten w.work w.pending)
        w.accepted e structured),
  subst (λ l. Holds w.raw w.raw_log (raw_lines l) (raw_lines (w.accepted ++ e ∷ [])))
      (sym (unwritten_raw-snoc w.work w.pending e))
      (Holds-accepted (λ x. x.raw) w.raw w.raw_log (unwritten_raw w.work w.pending) w.accepted e
        raw),
)

pub persist_sync-eq :
    (there : Bool) (operation : String) (o : Outcome) (w : AuditWriter)
    → (persist_sync there operation o w).err ≡ none
    → persist_sync there operation o w ≡ w
unfolding persist_sync report latch join
persist_sync-eq there operation o w fine = ground (arith, fine)

-- A write without an error wrote the whole line.
written_all :
    (line : Bytes) (o : Outcome) → write_failure line o ≡ none → take o.written line ≡ line
unfolding write_failure
written_all line o h =
    let counted : o.written ≡ length line = ground (arith, h) in rw counted (take-length line)

pub persist_structured-eq :
    (e : AuditEntry) (o : Outcome) (w : AuditWriter)
    → (persist_structured e o w).err ≡ none
    → persist_structured e o w ≡ record w {
      structured_log =
          if w.structured then w.structured_log ++ e.structured ∷ [] else w.structured_log;
    }
unfolding persist_structured report latch join
persist_structured-eq e o w fine = elim (Option-cases (write_failure e.structured o)) [
  | inl full ↦ ground (arith, fine, full, written_all e.structured o full)
  | inr (x, failed) ↦ ground (arith, fine, failed)
]

pub persist_raw-eq :
    (e : AuditEntry) (o : Outcome) (w : AuditWriter)
    → (persist_raw e o w).err ≡ none
    → persist_raw e o w
      ≡ record w { raw_log = if w.raw then w.raw_log ++ e.raw ∷ [] else w.raw_log }
unfolding persist_raw report latch join
persist_raw-eq e o w fine = elim (Option-cases (write_failure e.raw o)) [
  | inl full ↦ ground (arith, fine, full, written_all e.raw o full)
  | inr (x, failed) ↦ ground (arith, fine, failed)
]
