-- ===== src/Scheduler/Tests.antt =====
-- The scheduler at concrete lists of tasks: runs of the code, and the theorems where they apply.
use mboot.Prelude.{ℕ, ◌+◌, ◌≤◌, ◌≡◌, refl, [], ◌∷◌, map, arith}
use mboot.Scheduler.{
  Tcb, TaskState, Scheduler, ready, running, blocked, scheduler_tick, scheduler_init,
  scheduler_wake, scheduler_exit_current, with_current,
}
use mboot.Scheduler.Fair.{Resumes, after_ticks, tick-Fair}
use mboot.Scheduler.Order.{Rotation, stateless, tick-Rotation, Distinct}
use mboot.Scheduler.Running.{OthersNotRunning, pids}
use mboot.Scheduler.Steps.{start, then, ticked, woken, Steps, Steps-IsScheduled}
use mboot.Scheduler.Wait.{Reported, exit-Reported}

abbrev task : ℕ → TaskState → ℕ → Tcb
task pid state wait_obj = record {
  addr = 0x1000 + pid;
  esp = 0x8000 + pid;
  state = state;
  pid = pid;
  stack_base = 0;
  cr3 = 0x2000 + pid;
  tty = 0;
  wait_obj = wait_obj;
  exit_code = 0;
}

-- Task 3 runs; the idle task is 0; task 2 waits for task 3.
abbrev four_tasks : Scheduler
four_tasks = record {
  ring = task 3 running 0 ∷ task 2 blocked 3 ∷ task 1 ready 0 ∷ task 0 ready 0 ∷ [];
  idle_task = 0x1000;
  next_pid = 4;
  cr3 = 0x2003;
}

abbrev frames : ℕ → ℕ
frames i = 0x9000 + i

blocked_task_is_passed :
    (scheduler_tick 0x9000 four_tasks).0.ring
    ≡ task 1 running 0
      ∷ task 0 ready 0
      ∷ record (task 3 ready 0) { esp = 0x9000 }
      ∷ task 2 blocked 3
      ∷ []
unfolding scheduler_tick
blocked_task_is_passed = refl

tick-Fair_example :
    (n : ℕ) × (n ≤ 2)
    × Resumes (task 0 ready 0) (scheduler_tick (frames n) (after_ticks frames n four_tasks))
tick-Fair_example =
    tick-Fair (task 0 ready 0) refl frames four_tasks (task 3 running 0)
      (task 2 blocked 3 ∷ task 1 ready 0 ∷ []) [] refl

tick-Rotation_example :
    Rotation
      (map stateless (with_current (λ c. record c { esp = 0x9000 }) four_tasks.ring))
      (map stateless (scheduler_tick 0x9000 four_tasks).0.ring)
tick-Rotation_example = tick-Rotation 0x9000 four_tasks

abbrev boot : Scheduler
boot = record { ring = []; idle_task = 0; next_pid = 0; cr3 = 0 }

abbrev first : Scheduler
first = scheduler_init 0x1000 0x2000 boot

some-Steps : Steps first (scheduler_wake 7 (scheduler_tick 0x9000 first).0)
some-Steps = then (then start (ticked 0x9000)) (woken 7)

Steps-IsScheduled_example :
    OthersNotRunning (scheduler_wake 7 (scheduler_tick 0x9000 first).0).ring
    × Distinct (pids (scheduler_wake 7 (scheduler_tick 0x9000 first).0).ring)
Steps-IsScheduled_example =
    Steps-IsScheduled 0x1000 0x2000 boot (scheduler_wake 7 (scheduler_tick 0x9000 first).0)
      (omega arith) some-Steps

four_pids : Distinct (3 ∷ 2 ∷ 1 ∷ 0 ∷ [])
four_pids = (
  (omega arith, (omega arith, (omega arith, tt))),
  ((omega arith, (omega arith, tt)), ((omega arith, tt), (tt, tt))),
)

exit-Reported_example :
    Reported 42
      (task 3 running 0)
      (task 2 blocked 3 ∷ task 1 ready 0 ∷ task 0 ready 0 ∷ [])
      (scheduler_exit_current 42 four_tasks)
exit-Reported_example =
    exit-Reported 42 four_tasks (task 3 running 0)
      (task 2 blocked 3 ∷ task 1 ready 0 ∷ task 0 ready 0 ∷ []) refl (omega arith) (omega arith)
      (omega arith) (omega arith) four_pids
