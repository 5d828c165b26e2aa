-- ===== src/Queue/Tests.antt =====
-- A queue with a delay of 1000 and three tasks, of which the second comes too early.
use identity_wallet.Common.{ℕ, ◌≡◌, refl, none, some, List, [], ◌∷◌, length}
use identity_wallet.Queue.{AsyncTaskQueue, Task, run_tasks, handle_task, wait_time}
use identity_wallet.Queue.Rate.{Spaced, run_tasks-Spaced}

abbrev queue : AsyncTaskQueue
queue = record { delay = 1000; next_execution = none }

abbrev task : ℕ → ℕ → Task
task after late = record { after = after; late = late }

abbrev tasks : List Task
tasks = task 5 0 ∷ task 10 3 ∷ task 2000 0 ∷ []

run : run_tasks tasks 100 queue ≡ some (105 ∷ 1108 ∷ 3108 ∷ [])
unfolding run_tasks handle_task wait_time
run = refl

run_tasks-Spaced_example :
    (times : List ℕ) × (run_tasks tasks 100 queue ≡ some times)
    × (length times ≡ 3)
    × Spaced 1000 0 times
run_tasks-Spaced_example = run_tasks-Spaced tasks 100 queue
