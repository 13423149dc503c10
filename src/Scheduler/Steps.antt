-- ===== src/Scheduler/Steps.antt =====
-- The invariant over every sequence of the operations on the task list.
use mathlib.Core.Path.{subst}
use mathlib.Core.Option.{some-injective}
use mboot.Prelude.{ℕ, ◌+◌, ◌^◌, ◌<◌, ◌≡◌, some, inl, inr, arith, Bool-cases}
use mboot.Scheduler.{
  Scheduler, scheduler_tick, scheduler_block, scheduler_wake, add_task, fork_current,
  scheduler_current_tty, scheduler_exit_current, current_is_idle, scheduler_init,
}
use mboot.Scheduler.Order.{Distinct}
use mboot.Scheduler.Running.{
  OthersNotRunning, pids, IsScheduled, tick-IsScheduled, block-IsScheduled, exit-IsScheduled,
  scheduler_wake-IsScheduled,
}
use mboot.Scheduler.Adding.{add-IsScheduled}

fork-IsScheduled :
    (addr frame dir : ℕ) (s : Scheduler) (o : Scheduler × ℕ)
    → fork_current addr frame dir s ≡ some o
    → s.next_pid + 1 < 2 ^ 32
    → IsScheduled s
    → IsScheduled o.0
unfolding fork_current
fork-IsScheduled addr frame dir s o e b h = elim (Bool-cases (current_is_idle s)) [
  | inl i ↦ ground (arith, e, i)
  | inr i ↦
      subst (λ p. IsScheduled p.0)
        (some-injective (add_task addr frame 0 dir (scheduler_current_tty s) s) o (rw i at e))
        (add-IsScheduled addr frame 0 dir (scheduler_current_tty s) s b h)
]

-- What interrupts and system calls do to the task list.
pub data Step (s : Scheduler) : Scheduler → Type 0 where
  ticked : (frame : ℕ) → Step s (scheduler_tick frame s).0
  slept : (wait_obj esp : ℕ) → Step s (scheduler_block wait_obj esp s)
  woken : (wait_obj : ℕ) → Step s (scheduler_wake wait_obj s)
  left : (code : ℕ) → Step s (scheduler_exit_current code s)
  added :
      (addr esp stack_base cr3 tty : ℕ)
      → s.next_pid + 1 < 2 ^ 32
      → Step s (add_task addr esp stack_base cr3 tty s).0
  forked :
      (addr frame dir : ℕ) (o : Scheduler × ℕ)
      → fork_current addr frame dir s ≡ some o
      → s.next_pid + 1 < 2 ^ 32
      → Step s o.0

pub data Steps (s : Scheduler) : Scheduler → Type 0 where
  start : Steps s s
  then : {a b : Scheduler} → Steps s a → Step a b → Steps s b

Step-IsScheduled : {s s' : Scheduler} → Step s s' → IsScheduled s → IsScheduled s'
Step-IsScheduled (ticked frame) h = tick-IsScheduled frame _ h
Step-IsScheduled (slept obj esp) h = block-IsScheduled obj esp _ h
Step-IsScheduled (woken obj) h = scheduler_wake-IsScheduled obj _ h
Step-IsScheduled (left code) h = exit-IsScheduled code _ h
Step-IsScheduled (added addr esp stack_base cr3 tty b) h =
    add-IsScheduled addr esp stack_base cr3 tty _ b h
Step-IsScheduled (forked addr frame dir o e b) h = fork-IsScheduled addr frame dir _ o e b h

init-IsScheduled :
    (addr dir : ℕ) (s : Scheduler)
    → s.next_pid + 1 < 2 ^ 32
    → IsScheduled (scheduler_init addr dir s)
unfolding scheduler_init
init-IsScheduled addr dir s b = record {
  others = tt;
  distinct = (tt, tt);
  given = (omega (arith, b), tt);
}

-- From scheduler_init on, however timer interrupts, sleeps, wake-ups, exits, forks and new tasks
-- follow each other, as long as the counter of pids does not wrap: no task but the current one is
-- running, and no two tasks have the same pid.
pub Steps-IsScheduled :
    (addr dir : ℕ) (boot s : Scheduler)
    → boot.next_pid + 1 < 2 ^ 32
    → Steps (scheduler_init addr dir boot) s
    → OthersNotRunning s.ring × Distinct (pids s.ring)
Steps-IsScheduled addr dir boot s b steps = let h = always steps in (h.others, h.distinct)
  where
    always : {s : Scheduler} → Steps (scheduler_init addr dir boot) s → IsScheduled s
    always start = init-IsScheduled addr dir boot b
    always (then rest step) = Step-IsScheduled step (always rest)
