-- ===== src/Scheduler/Running.antt =====
-- The invariant of the task list, kept by every operation of the scheduler.
use mathlib.Core.Path.{subst}
use mboot.Prelude.{
  ℕ, ◌<◌, ◌≡◌, refl, sym, ap, false, List, [], ◌∷◌, inl, inr, arith, All, All-append, All-split,
  Bool-cases, map, ◌==◌,
}
use mboot.Scheduler.{
  Tcb, blocked, exited, Scheduler, is_running, schedule_ring, scheduler_schedule, scheduler_tick,
  scheduler_perform_switch, scheduler_block, wake_task, scheduler_wake, scheduler_exit_current,
  interrupted, with_current, current_is_idle, current_pid,
}
use mboot.Scheduler.Order.{
  schedule_ring-cases, schedule_ring-Rotation, Distinct, Distinct-rotated, All-rotated,
}

abbrev pub NotRunning : Tcb → Type 0
NotRunning t = is_running t.state ≡ false

abbrev pub OthersNotRunning : List Tcb → Type 0
OthersNotRunning [] = Unit
OthersNotRunning (c ∷ rest) = All NotRunning rest

abbrev pub pids : List Tcb → List ℕ
pids = map (λ t. t.pid)

-- At most the current task is running, and the pids are distinct and below the next one.
pub record IsScheduled (s : Scheduler) : Type 0 where
  pub others : OthersNotRunning s.ring
  pub distinct : Distinct (pids s.ring)
  pub given : All (λ p. p < s.next_pid) (pids s.ring)

schedule_ring-OthersNotRunning :
    (ring : List Tcb) → All NotRunning ring → OthersNotRunning (schedule_ring ring)
unfolding schedule_ring
schedule_ring-OthersNotRunning [] r = tt
schedule_ring-OthersNotRunning (c ∷ rest) r = elim (schedule_ring-cases c rest) [
  | inl (e, a) ↦ subst OthersNotRunning (sym e) r.1
  | inr (p, n, q, d, a, k, e) ↦
      let (x, y) = All-split NotRunning p (n ∷ q) (subst (All NotRunning) d r.1) in
      subst OthersNotRunning (sym e) (All-append NotRunning q (c ∷ p) y.1 (r.0, x))
]

schedule-IsScheduled :
    (s : Scheduler) → IsScheduled s → All NotRunning s.ring → IsScheduled (scheduler_schedule s)
unfolding scheduler_schedule
schedule-IsScheduled s h r =
    let rot = schedule_ring-Rotation (λ t. t.pid) (λ st t. refl) s.ring in
    record {
      others = schedule_ring-OthersNotRunning s.ring r;
      distinct = Distinct-rotated rot h.distinct;
      given = All-rotated (λ p. p < s.next_pid) rot h.given;
    }

-- A change of the tasks that leaves their pids.
with_ring-IsScheduled :
    (s : Scheduler) (ring : List Tcb)
    → pids ring ≡ pids s.ring
    → OthersNotRunning ring
    → IsScheduled s
    → IsScheduled (record s { ring = ring })
with_ring-IsScheduled s ring e o h = record {
  others = o;
  distinct = rw e h.distinct;
  given = rw e h.given;
}

with_current-pids :
    (f : Tcb → Tcb)
    → ((t : Tcb) → (f t).pid ≡ t.pid)
    → (l : List Tcb) → pids (with_current f l) ≡ pids l
with_current-pids f same [] = refl
with_current-pids f same (c ∷ rest) = ap (λ p. p ∷ pids rest) (same c)

with_current-NotRunning :
    (f : Tcb → Tcb)
    → ((t : Tcb) → NotRunning (f t))
    → (l : List Tcb) → OthersNotRunning l
    → All NotRunning (with_current f l)
with_current-NotRunning f still [] o = tt
with_current-NotRunning f still (c ∷ rest) o = (still c, o)

NotRunning-others : (l : List Tcb) → All NotRunning l → OthersNotRunning l
NotRunning-others [] a = tt
NotRunning-others (c ∷ rest) a = a.1

-- The current task stops, and the scheduler looks for the next.
leave-IsScheduled :
    (f : Tcb → Tcb)
    → ((t : Tcb) → (f t).pid ≡ t.pid)
    → ((t : Tcb) → NotRunning (f t))
    → (s : Scheduler) → IsScheduled s
    → IsScheduled (scheduler_schedule (record s { ring = with_current f s.ring }))
leave-IsScheduled f same still s h =
    let a = with_current-NotRunning f still s.ring h.others in
    schedule-IsScheduled (record s { ring = with_current f s.ring })
      (with_ring-IsScheduled s (with_current f s.ring) (with_current-pids f same s.ring)
        (NotRunning-others (with_current f s.ring) a) h)
      a

wake_task-pid : (obj : ℕ) (t : Tcb) → (wake_task obj t).pid ≡ t.pid
wake_task-pid obj t = ground arith

wake_task-NotRunning : (obj : ℕ) (t : Tcb) → NotRunning t → NotRunning (wake_task obj t)
wake_task-NotRunning obj t r = ground arith

pub wake-pids : (obj : ℕ) (ts : List Tcb) → pids (map (wake_task obj) ts) ≡ pids ts
wake-pids obj [] = refl
wake-pids obj (t ∷ ts) = rw (wake_task-pid obj t, wake-pids obj ts)

wake-All : (obj : ℕ) (ts : List Tcb) → All NotRunning ts → All NotRunning (map (wake_task obj) ts)
wake-All obj [] a = tt
wake-All obj (t ∷ ts) a = (wake_task-NotRunning obj t a.0, wake-All obj ts a.1)

wake-OthersNotRunning :
    (obj : ℕ) (ts : List Tcb) → OthersNotRunning ts → OthersNotRunning (map (wake_task obj) ts)
wake-OthersNotRunning obj [] o = tt
wake-OthersNotRunning obj (t ∷ ts) o = wake-All obj ts o

pub scheduler_wake-IsScheduled :
    (obj : ℕ) (s : Scheduler) → IsScheduled s → IsScheduled (scheduler_wake obj s)
unfolding scheduler_wake
scheduler_wake-IsScheduled obj s h = elim (Bool-cases (obj == 0)) [
  | inl e ↦ rw e h
  | inr e ↦ rw e (
      with_ring-IsScheduled s (map (wake_task obj) s.ring) (wake-pids obj s.ring)
        (wake-OthersNotRunning obj s.ring h.others) h)
]

pub exit-IsScheduled :
    (code : ℕ) (s : Scheduler) → IsScheduled s → IsScheduled (scheduler_exit_current code s)
unfolding scheduler_exit_current
exit-IsScheduled code s h = elim (Bool-cases (current_is_idle s)) [
  | inl e ↦ rw e h
  | inr e ↦ rw e (
      scheduler_wake-IsScheduled (current_pid s) (record s { ring = with_current done s.ring })
        (with_ring-IsScheduled s (with_current done s.ring)
          (with_current-pids done (λ t. refl) s.ring)
          (NotRunning-others (with_current done s.ring)
            (with_current-NotRunning done (λ t. refl) s.ring h.others))
          h))
]
  where
    done : Tcb → Tcb
    done c = record c { state = exited; exit_code = code }

pub tick-IsScheduled :
    (frame : ℕ) (s : Scheduler) → IsScheduled s → IsScheduled (scheduler_tick frame s).0
unfolding scheduler_tick
tick-IsScheduled frame s h =
    leave-IsScheduled (interrupted frame) (λ t. refl) (λ t. ground arith) s h

with_current_twice :
    (f g : Tcb → Tcb) (l : List Tcb)
    → with_current f (with_current g l) ≡ with_current (λ t. f (g t)) l
with_current_twice f g [] = refl
with_current_twice f g (c ∷ rest) = refl

pub block-IsScheduled :
    (obj esp : ℕ) (s : Scheduler) → IsScheduled s → IsScheduled (scheduler_block obj esp s)
unfolding scheduler_block scheduler_perform_switch
block-IsScheduled obj esp s h =
    rw
      (with_current_twice (λ c. record c { esp = esp })
        (λ c. record c { wait_obj = obj; state = blocked }) s.ring)
      (leave-IsScheduled (λ c. record c { esp = esp; wait_obj = obj; state = blocked }) (λ t. refl)
        (λ t. refl) s h)
