-- ===== src/Queue.antt =====
-- The rate limit of src/common/utils/async-task-queue.js: `handleTask`, which the queue of the
-- package async calls for one task after the other. A timer that is set fires when its delay is
-- over, or later; how much later each time is an argument, as is when a task is handed over.
pub mod Rate
mod Tests
use identity_wallet.Common.{
  ℕ, zero, suc, ◌+◌, ◌-◌, Bool, true, false, Option, none, some, List, [], ◌∷◌, ltb, if◌then◌else◌,
}

pub record AsyncTaskQueue : Type 0 where
  pub delay : ℕ
  pub next_execution : Option ℕ

-- `this.nextExecution && ts < this.nextExecution`, with how long to wait; `null` and 0 are falsy.
unfoldable pub wait_time : Option ℕ → ℕ → Option ℕ
wait_time none ts = none
wait_time (some zero) ts = none
wait_time (some (suc n)) ts = if ltb ts (suc n) then some (suc n - ts) else none

-- The time at which the task is executed, by fuel: the calls of `handleTask` for it.
unfoldable pub handle_task : ℕ → ℕ → ℕ → AsyncTaskQueue → Option (ℕ × AsyncTaskQueue)
unfolding wait_time
handle_task zero late ts q = none
handle_task (suc calls) late ts q = elim (wait_time q.next_execution ts) [
  | none ↦ some (ts, record q { next_execution = some (ts + q.delay) })
  | some d ↦ handle_task calls late (ts + d + late) q
]

-- A task is handed over some time after the one before was executed.
pub record Task : Type 0 where
  pub after : ℕ
  pub late : ℕ

-- The times at which the tasks are executed, from the time `now`.
unfoldable pub run_tasks : List Task → ℕ → AsyncTaskQueue → Option (List ℕ)
unfolding handle_task
run_tasks [] now q = some []
run_tasks (t ∷ ts) now q = elim (handle_task 2 t.late (now + t.after) q) [
  | none ↦ none
  | some (at_time, q') ↦ elim (run_tasks ts at_time q') [
    | none ↦ none
    | some times ↦ some (at_time ∷ times)
  ]
]
