-- ===== src/Runner/Summary.antt =====
-- pkg/runner/runner.go, `summarize`: the counts of a run.
use aries.Base.{
  ℕ, ◌+◌, ◌≤◌, ◌≡◌, refl, ap, ◌∙◌, Bool, true, false, List, [], ◌∷◌, arith, length, if◌then◌else◌,
  ◌||◌,
}
use aries.Core.Types.{
  Status, TaskResult, RunSummary, succeeded, failed, canceled, blocked_isolation,
}

abbrev pub is_succeeded : Status → Bool
is_succeeded succeeded = true
is_succeeded _ = false

abbrev pub is_failed : Status → Bool
is_failed failed = true
is_failed _ = false

abbrev pub is_canceled : Status → Bool
is_canceled canceled = true
is_canceled _ = false

abbrev pub is_blocked : Status → Bool
is_blocked blocked_isolation = true
is_blocked _ = false

abbrev pub no_tasks : RunSummary
no_tasks = record {
  tasks = 0;
  harness_succeeded = 0;
  harness_failed = 0;
  evaluations_run = 0;
  evaluations_succeeded = 0;
  evaluations_failed = 0;
  evaluations_blocked = 0;
  cleanup_failed = 0;
}

count_harness : Status → RunSummary → RunSummary
count_harness status s =
    if is_succeeded status
    then record s { harness_succeeded = s.harness_succeeded + 1 }
    else if is_failed status || is_canceled status
    then record s { harness_failed = s.harness_failed + 1 }
    else s

-- The `switch` on the evaluation's status.
count_evaluation : Status → RunSummary → RunSummary
count_evaluation succeeded s = record s {
  evaluations_run = s.evaluations_run + 1;
  evaluations_succeeded = s.evaluations_succeeded + 1;
}
count_evaluation failed s = record s {
  evaluations_run = s.evaluations_run + 1;
  evaluations_failed = s.evaluations_failed + 1;
}
count_evaluation canceled s = record s {
  evaluations_run = s.evaluations_run + 1;
  evaluations_failed = s.evaluations_failed + 1;
}
count_evaluation blocked_isolation s = record s { evaluations_blocked = s.evaluations_blocked + 1 }
count_evaluation _ s = s

count_cleanup : Status → RunSummary → RunSummary
count_cleanup status s =
    if is_failed status then record s { cleanup_failed = s.cleanup_failed + 1 } else s

count_task : TaskResult → RunSummary → RunSummary
count_task t s =
    count_cleanup t.cleanup.status
      (count_evaluation t.evaluation.status (count_harness t.harness.status s))

-- The loop over the tasks.
count_tasks : List TaskResult → RunSummary → RunSummary
count_tasks [] s = s
count_tasks (t ∷ ts) s = count_tasks ts (count_task t s)

pub summarize : List TaskResult → RunSummary
summarize tasks = count_tasks tasks (record no_tasks { tasks = length tasks })

abbrev one_if : Bool → ℕ
one_if true = 1
one_if false = 0

-- How many results pass a test.
abbrev pub count_by : (TaskResult → Bool) → List TaskResult → ℕ
count_by p [] = 0
count_by p (t ∷ ts) = one_if (p t) + count_by p ts

abbrev pub harness_ok : TaskResult → Bool
harness_ok t = is_succeeded t.harness.status

abbrev pub harness_bad : TaskResult → Bool
harness_bad t = is_failed t.harness.status || is_canceled t.harness.status

abbrev pub evaluation_ok : TaskResult → Bool
evaluation_ok t = is_succeeded t.evaluation.status

abbrev pub evaluation_bad : TaskResult → Bool
evaluation_bad t = is_failed t.evaluation.status || is_canceled t.evaluation.status

abbrev pub evaluation_blocked : TaskResult → Bool
evaluation_blocked t = is_blocked t.evaluation.status

abbrev pub cleanup_bad : TaskResult → Bool
cleanup_bad t = is_failed t.cleanup.status

count_harness_lem :
    (x : Status) (s : RunSummary)
    → count_harness x s ≡ record s {
      harness_succeeded = s.harness_succeeded + one_if (is_succeeded x);
      harness_failed = s.harness_failed + one_if (is_failed x || is_canceled x);
    }
unfolding count_harness
count_harness_lem x s = ground arith

count_evaluation_lem :
    (x : Status) (s : RunSummary)
    → count_evaluation x s ≡ record s {
      evaluations_run =
          s.evaluations_run + one_if (is_succeeded x) + one_if (is_failed x || is_canceled x);
      evaluations_succeeded = s.evaluations_succeeded + one_if (is_succeeded x);
      evaluations_failed = s.evaluations_failed + one_if (is_failed x || is_canceled x);
      evaluations_blocked = s.evaluations_blocked + one_if (is_blocked x);
    }
unfolding count_evaluation
count_evaluation_lem x s = ground arith

count_cleanup_lem :
    (x : Status) (s : RunSummary)
    → count_cleanup x s ≡ record s { cleanup_failed = s.cleanup_failed + one_if (is_failed x) }
unfolding count_cleanup
count_cleanup_lem x s = ground arith

-- The counters `s` with those of `ts` added.
abbrev adding : List TaskResult → RunSummary → RunSummary
adding ts s = record {
  tasks = s.tasks;
  harness_succeeded = s.harness_succeeded + count_by harness_ok ts;
  harness_failed = s.harness_failed + count_by harness_bad ts;
  evaluations_run = s.evaluations_run + count_by evaluation_ok ts + count_by evaluation_bad ts;
  evaluations_succeeded = s.evaluations_succeeded + count_by evaluation_ok ts;
  evaluations_failed = s.evaluations_failed + count_by evaluation_bad ts;
  evaluations_blocked = s.evaluations_blocked + count_by evaluation_blocked ts;
  cleanup_failed = s.cleanup_failed + count_by cleanup_bad ts;
}

RunSummary-path :
    (a b : RunSummary)
    → a.tasks ≡ b.tasks
    → a.harness_succeeded ≡ b.harness_succeeded
    → a.harness_failed ≡ b.harness_failed
    → a.evaluations_run ≡ b.evaluations_run
    → a.evaluations_succeeded ≡ b.evaluations_succeeded
    → a.evaluations_failed ≡ b.evaluations_failed
    → a.evaluations_blocked ≡ b.evaluations_blocked
    → a.cleanup_failed ≡ b.cleanup_failed
    → a ≡ b
RunSummary-path a b p0 p1 p2 p3 p4 p5 p6 p7 = λ i. record {
  tasks = p0 i;
  harness_succeeded = p1 i;
  harness_failed = p2 i;
  evaluations_run = p3 i;
  evaluations_succeeded = p4 i;
  evaluations_failed = p5 i;
  evaluations_blocked = p6 i;
  cleanup_failed = p7 i;
}

count_task-adding : (t : TaskResult) (s : RunSummary) → count_task t s ≡ adding (t ∷ []) s
unfolding count_task
count_task-adding t s =
    rw (count_harness_lem, count_evaluation_lem, count_cleanup_lem)
      (RunSummary-path _ (adding (t ∷ []) s) refl (omega arith) (omega arith) (omega arith)
        (omega arith) (omega arith) (omega arith) (omega arith))

adding-adding :
    (t : TaskResult) (ts : List TaskResult) (s : RunSummary)
    → adding ts (adding (t ∷ []) s) ≡ adding (t ∷ ts) s
adding-adding t ts s =
    RunSummary-path _ (adding (t ∷ ts) s) refl (omega arith) (omega arith) (omega arith)
      (omega arith) (omega arith) (omega arith) (omega arith)

count_tasks-adding : (ts : List TaskResult) (s : RunSummary) → count_tasks ts s ≡ adding ts s
unfolding count_tasks
count_tasks-adding [] s =
    RunSummary-path s (adding [] s) refl (omega arith) (omega arith) (omega arith) (omega arith)
      (omega arith) (omega arith) (omega arith)
count_tasks-adding (t ∷ ts) s =
    count_tasks-adding ts (count_task t s)
    ∙ ap (adding ts) (count_task-adding t s)
    ∙ adding-adding t ts s

status_once :
    (x : Status)
    → (one_if (is_succeeded x) + one_if (is_failed x || is_canceled x) + one_if (is_blocked x) ≤ 1)
status_once x = ground arith

failed_once : (x : Status) → one_if (is_failed x) ≤ 1
failed_once x = ground arith

count_by_le :
    (ts : List TaskResult)
    → (count_by harness_ok ts + count_by harness_bad ts ≤ length ts)
      × (count_by evaluation_ok ts + count_by evaluation_bad ts + count_by evaluation_blocked ts
          ≤ length ts)
      × (count_by cleanup_bad ts ≤ length ts)
count_by_le [] = omega arith
count_by_le (t ∷ ts) = omega (
  arith,
  count_by_le ts,
  status_once t.harness.status,
  status_once t.evaluation.status,
  failed_once t.cleanup.status,
)

-- The counters of a run are what they say, for any results: how many results have each status. The
-- evaluations that ran are those that succeeded and those that failed or were cancelled, and no task
-- is counted twice.
pub summarize_counts :
    (ts : List TaskResult)
    → let s = summarize ts in
      (s.tasks ≡ length ts)
      × (s.harness_succeeded ≡ count_by harness_ok ts)
      × (s.harness_failed ≡ count_by harness_bad ts)
      × (s.evaluations_succeeded ≡ count_by evaluation_ok ts)
      × (s.evaluations_failed ≡ count_by evaluation_bad ts)
      × (s.evaluations_blocked ≡ count_by evaluation_blocked ts)
      × (s.cleanup_failed ≡ count_by cleanup_bad ts)
      × (s.evaluations_run ≡ s.evaluations_succeeded + s.evaluations_failed)
      × (s.evaluations_run + s.evaluations_blocked ≤ s.tasks)
      × (s.harness_succeeded + s.harness_failed ≤ s.tasks)
unfolding summarize
summarize_counts ts =
    let start : RunSummary = record no_tasks { tasks = length ts } in
    rw (summarize, count_tasks-adding ts start) (omega (arith, count_by_le ts))
