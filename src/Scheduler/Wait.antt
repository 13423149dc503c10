-- ===== src/Scheduler/Wait.antt =====
-- Waiting for a task: what scheduler_find_by_pid finds, and what exit and wake-up give a waiter.
use mathlib.Core.Path.{subst}
use mboot.Prelude.{
  ℕ, ◌≡◌, ◌≢◌, refl, sym, ap, ◌∙◌, false, some, List, [], ◌∷◌, ◌⊎◌, inl, inr, arith, ==_iff, ◌==◌,
  map, ◌<◌, ◌^◌,
}
use mboot.Scheduler.{
  Tcb, Scheduler, ready, blocked, exited, is_exited, wake_task, scheduler_wake,
  scheduler_exit_current, wait_end, is_blocked, TaskState,
}
use mboot.Scheduler.Order.{Distinct}
use mboot.Scheduler.Running.{pids, wake-pids}
use mboot.Scheduler.Find.{In, scheduler_find_by_pid-In}

wake_task-In :
    (obj : ℕ) (w : Tcb) (ts : List Tcb) → In w ts → In (wake_task obj w) (map (wake_task obj) ts)
wake_task-In obj w [] m = m
wake_task-In obj w (t ∷ ts) m = elim m [
  | inl e ↦ inl (ap (wake_task obj) e)
  | inr n ↦ inr (wake_task-In obj w ts n)
]

woken :
    (obj : ℕ) (w : Tcb)
    → w.state ≡ blocked
    → w.wait_obj ≡ obj
    → wake_task obj w ≡ record w { state = ready }
woken obj w b o = rw (b, (==_iff w.wait_obj obj).1 o)

is_blocked-false : (st : TaskState) → st ≢ blocked → is_blocked st ≡ false
is_blocked-false st n = ground arith

left_alone : (obj : ℕ) (w : Tcb) → (w.state ≢ blocked) ⊎ (w.wait_obj ≢ obj) → wake_task obj w ≡ w
left_alone obj w (inl n) = rw (is_blocked-false w.state n)
left_alone obj w (inr n) = let e : (w.wait_obj == obj) ≡ false = ground arith in ground arith

-- What a waiter finds: a task that was in the list with the pid, at the time of the wake-up.
wait_end-In :
    (s : Scheduler) (t : Tcb)
    → Distinct (pids s.ring)
    → In t s.ring
    → s.idle_task ≢ 0
    → t.pid < 2 ^ 31
    → wait_end t.pid s ≡ some t.exit_code
unfolding wait_end
wait_end-In s t d m idle small = rw (wait_end, scheduler_find_by_pid-In s t d m idle small)

-- What an exit of the current task with a code leaves: the code for whoever waits for it, each task
-- asleep on its pid ready, and every other task behind the current one as it was.
abbrev pub Reported : ℕ → Tcb → List Tcb → Scheduler → Type 0
Reported code c rest s' =
    (wait_end c.pid s' ≡ some code)
    × ((w : Tcb)
        → In w rest
        → w.state ≡ blocked
        → w.wait_obj ≡ c.pid
        → In (record w { state = ready }) s'.ring)
    × ((w : Tcb) → In w rest → (w.state ≢ blocked) ⊎ (w.wait_obj ≢ c.pid) → In w s'.ring)

module _ (code : ℕ) (s : Scheduler) (c : Tcb) (rest : List Tcb) (ring : s.ring ≡ c ∷ rest)
    (idle : s.idle_task ≢ 0) (task : c.addr ≢ s.idle_task) (pid : c.pid ≢ 0)
    (small : c.pid < 2 ^ 31) (distinct : Distinct (pids s.ring)) where
  abbrev dead : Tcb
  dead = record c { state = exited; exit_code = code }

  not_idle : (c.addr == s.idle_task) ≡ false
  not_idle = ground arith

  nonzero : (c.pid == 0) ≡ false
  nonzero = ground arith

  exit-ring : (scheduler_exit_current code s).ring ≡ map (wake_task c.pid) (dead ∷ rest)
  unfolding scheduler_exit_current scheduler_wake
  exit-ring = rw (scheduler_exit_current, ring, not_idle, nonzero)

  exit-idle_task : (scheduler_exit_current code s).idle_task ≡ s.idle_task
  unfolding scheduler_exit_current scheduler_wake
  exit-idle_task = rw (scheduler_exit_current, ring, not_idle, nonzero)

  -- When there is an idle task and all pids differ, an exit of another task, whose pid is neither 0
  -- nor negative: the end of scheduler_wait_pid gives the exit code, each task behind the current
  -- one that sleeps on its pid becomes ready, and every other is left as it was.
  pub exit-Reported : Reported code c rest (scheduler_exit_current code s)
  exit-Reported = (
    wait_end-In (scheduler_exit_current code s) dead (subst Distinct (sym same_pids) distinct)
        (subst (In dead) (sym exit-ring) (inl refl)) (λ e. idle (sym exit-idle_task ∙ e)) small,
    (λ w m b o. subst (In (record w { state = ready })) (sym exit-ring) (
        inr (
          subst (λ u. In u (map (wake_task c.pid) rest)) (woken c.pid w b o)
            (wake_task-In c.pid w rest m)))),
    λ w m n. subst (In w) (sym exit-ring) (
        inr (
          subst (λ u. In u (map (wake_task c.pid) rest)) (left_alone c.pid w n)
            (wake_task-In c.pid w rest m))),
  )
    where
      same_pids : pids (scheduler_exit_current code s).ring ≡ pids s.ring
      same_pids =
          ap pids exit-ring ∙ ap (λ l. c.pid ∷ l) (wake-pids c.pid rest) ∙ sym (ap pids ring)

-- A sleeper that is ready again, and whose scheduler_wait_pid gives the exit code of a task that has
-- not exited.
abbrev pub Early : (w t : Tcb) → Scheduler → Type 0
Early w t s =
    In (record w { state = ready }) s.ring
    × (wait_end t.pid s ≡ some t.exit_code)
    × ((u : Tcb) × In u s.ring × (u.pid ≡ t.pid) × (is_exited u.state ≡ false))

-- A wake-up for the number of a live task's pid ends the wait for that task early.
pub scheduler_wake-Early :
    (s : Scheduler) (w t : Tcb)
    → Distinct (pids s.ring)
    → In w s.ring
    → In t s.ring
    → w.state ≡ blocked
    → w.wait_obj ≡ t.pid
    → is_exited t.state ≡ false
    → t.pid ≢ 0
    → s.idle_task ≢ 0
    → t.pid < 2 ^ 31
    → Early w t (scheduler_wake t.pid s)
unfolding scheduler_wake
scheduler_wake-Early s w t d m n b o live pid idle small = (
  subst (In (record w { state = ready })) (sym wake-ring) (
      subst (λ u. In u (map (wake_task t.pid) s.ring)) (woken t.pid w b o)
        (wake_task-In t.pid w s.ring m)),
  subst (λ k. wait_end k (scheduler_wake t.pid s) ≡ some t.exit_code) same_pid
      (wait_end-In (scheduler_wake t.pid s) (wake_task t.pid t)
          (subst Distinct (sym (ap pids wake-ring ∙ wake-pids t.pid s.ring)) d) found
          (λ e. idle (sym wake-idle_task ∙ e)) (omega (arith, small, same_pid))
        ∙ ap some same_code),
  (wake_task t.pid t, found, same_pid, still_live),
)
  where
    wake-ring : (scheduler_wake t.pid s).ring ≡ map (wake_task t.pid) s.ring
    wake-ring = let e : (t.pid == 0) ≡ false = ground arith in rw (scheduler_wake, e)

    wake-idle_task : (scheduler_wake t.pid s).idle_task ≡ s.idle_task
    wake-idle_task = let e : (t.pid == 0) ≡ false = ground arith in rw (scheduler_wake, e)

    found : In (wake_task t.pid t) (scheduler_wake t.pid s).ring
    found = subst (In (wake_task t.pid t)) (sym wake-ring) (wake_task-In t.pid t s.ring n)

    same_pid : (wake_task t.pid t).pid ≡ t.pid
    same_pid = ground arith

    same_code : (wake_task t.pid t).exit_code ≡ t.exit_code
    same_code = ground arith

    still_live : is_exited (wake_task t.pid t).state ≡ false
    still_live = ground arith
