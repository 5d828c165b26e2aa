-- ===== src/Queue/Rate.antt =====
-- Tasks are executed with the delay of the queue between them.
use identity_wallet.Common.{
  ℕ, zero, suc, ◌+◌, ◌-◌, ◌≡◌, refl, ap, ◌≤◌, Option, none, some, List, [], ◌∷◌, arith, ltb, length,
  Bool-cases, ◌⊎◌, inl, inr,
}
use identity_wallet.Queue.{AsyncTaskQueue, Task, wait_time, handle_task, run_tasks}

-- The time from which a task may be executed.
abbrev pub open_time : Option ℕ → ℕ
open_time none = 0
open_time (some n) = n

-- Each execution is `delay` or more after the one before, the first no earlier than `from`.
abbrev pub Spaced : ℕ → ℕ → List ℕ → Type 0
Spaced delay from [] = Unit
Spaced delay from (t ∷ ts) = (from ≤ t) × Spaced delay (t + delay) ts

wait_time-open : (o : Option ℕ) (ts : ℕ) → open_time o ≤ ts → wait_time o ts ≡ none
unfolding wait_time
wait_time-open none ts h = refl
wait_time-open (some zero) ts h = refl
wait_time-open (some (suc n)) ts h = ground arith

wait_time-cases :
    (o : Option ℕ) (ts : ℕ)
    → ((wait_time o ts ≡ none) × (open_time o ≤ ts))
      ⊎ ((d : ℕ) × (wait_time o ts ≡ some d) × (open_time o ≡ ts + d))
unfolding wait_time
wait_time-cases none ts = inl (refl, omega arith)
wait_time-cases (some zero) ts = inl (refl, omega arith)
wait_time-cases (some (suc n)) ts = elim (Bool-cases (ltb ts (suc n))) [
  | inl early ↦ inr (suc n - ts, rw early refl, ground arith)
  | inr late ↦ inl (rw late refl, ground arith)
]

handle_task-open :
    (late ts : ℕ) (q : AsyncTaskQueue)
    → (t : ℕ) × (handle_task 2 late ts q
        ≡ some (t, record q { next_execution = some (t + q.delay) }))
      × (open_time q.next_execution ≤ t)
unfolding handle_task
handle_task-open late ts q = elim (wait_time-cases q.next_execution ts) [
  | inl (go, le) ↦ (ts, rw (go, handle_task) refl, le)
  | inr (d, wait, at_end) ↦
      let le : open_time q.next_execution ≤ ts + d + late = omega arith in
      (
        ts + d + late,
        rw (wait, wait_time-open q.next_execution (ts + d + late) le, handle_task) refl,
        le,
      )
]

-- Every task is executed, in order; an execution comes the queue's delay or more after the one
-- before it, and none comes before the time that the queue was closed until. Two calls of
-- `handleTask` are enough for each task.
pub run_tasks-Spaced :
    (ts : List Task) (now : ℕ) (q : AsyncTaskQueue)
    → (times : List ℕ) × (run_tasks ts now q ≡ some times)
      × (length times ≡ length ts)
      × Spaced q.delay (open_time q.next_execution) times
unfolding run_tasks
run_tasks-Spaced [] now q = ([], refl, refl, tt)
run_tasks-Spaced (task ∷ ts) now q =
    let (t, run, le) = handle_task-open task.late (now + task.after) q in
    let (times, more, count, spaced) =
      run_tasks-Spaced ts t (record q { next_execution = some (t + q.delay) }) in
    (t ∷ times, rw (run, more, run_tasks) refl, ap suc count, (le, spaced))
