-- ===== src/Scheduler.antt =====
-- The round-robin scheduler of stage2/scheduler.c.
--
-- The circular list of tcb_t is the list `ring`: its head is current_task, and each element's `next`
-- is the element behind it, the last one's the head. A task is known by its address `addr`. The
-- descriptor tables are left out; what a task's creation allocates (its stack, its frame, its page
-- directory) enters as arguments. The machine's CR3 is a field of the state.
pub mod Order
pub mod Fair
pub mod Running
pub mod Adding
pub mod Steps
pub mod Find
pub mod Wait
mod Tests
use mboot.Prelude.{
  ℕ, ◌+◌, ◌%◌, ◌^◌, Bool, true, false, ◌&&◌, ◌||◌, not, Option, none, some, List, [], ◌∷◌, ◌++◌,
  map, ◌==◌, ltb, if◌then◌else◌, leb,
}

-- `task_state_t`
pub data TaskState : Type 0 where
  ready running blocked exited : TaskState

-- `tcb_t`, without `fds` and `next`. The exit code is the int's bit pattern.
pub record Tcb : Type 0 where
  pub addr : ℕ
  pub esp : ℕ
  pub state : TaskState
  pub pid : ℕ
  pub stack_base : ℕ
  pub cr3 : ℕ
  pub tty : ℕ
  pub wait_obj : ℕ
  pub exit_code : ℕ

pub record Scheduler : Type 0 where
  pub ring : List Tcb
  pub idle_task : ℕ
  pub next_pid : ℕ
  pub cr3 : ℕ

abbrev pub is_runnable : TaskState → Bool
is_runnable ready = true
is_runnable running = true
is_runnable blocked = false
is_runnable exited = false

abbrev pub is_running : TaskState → Bool
is_running running = true
is_running _ = false

abbrev pub is_blocked : TaskState → Bool
is_blocked blocked = true
is_blocked _ = false

abbrev pub is_exited : TaskState → Bool
is_exited exited = true
is_exited _ = false

abbrev pub set_state : TaskState → Tcb → Tcb
set_state s t = record t { state = s }

-- The do-while of scheduler_schedule over the tasks behind the current one: those passed over, the
-- first runnable one, and those behind it.
unfoldable pub next_runnable : List Tcb → Option (List Tcb × Tcb × List Tcb)
next_runnable [] = none
next_runnable (t ∷ ts) =
    if is_runnable t.state
    then some ([], t, ts)
    else elim (next_runnable ts) [ none ↦ none | some (pre, n, post) ↦ some (t ∷ pre, n, post) ]

unfoldable pub schedule_ring : List Tcb → List Tcb
unfolding next_runnable
schedule_ring [] = []
schedule_ring (c ∷ rest) = elim (next_runnable rest) [
  | none ↦ (if is_blocked c.state then set_state running c else c) ∷ rest
  | some (pre, n, post) ↦ set_state running n ∷ post ++ c ∷ pre
]

-- The CR3 of the task at the head, or what was there while no task exists.
abbrev pub head_cr3 : ℕ → List Tcb → ℕ
head_cr3 old [] = old
head_cr3 old (c ∷ rest) = c.cr3

abbrev pub head_esp : ℕ → List Tcb → ℕ
head_esp old [] = old
head_esp old (c ∷ rest) = c.esp

unfoldable pub scheduler_schedule : Scheduler → Scheduler
unfolding schedule_ring
scheduler_schedule s =
    let ring' = schedule_ring s.ring in record s { ring = ring'; cr3 = head_cr3 s.cr3 ring' }

abbrev pub with_current : (Tcb → Tcb) → List Tcb → List Tcb
with_current f [] = []
with_current f (c ∷ rest) = f c ∷ rest

-- The current task as the timer interrupt leaves it, its frame saved at `r`.
abbrev pub interrupted : ℕ → Tcb → Tcb
interrupted r c = record c { esp = r; state = if is_running c.state then ready else c.state }

-- The frame pointer that the IRQ stub restores is the second result.
unfoldable pub scheduler_tick : ℕ → Scheduler → Scheduler × ℕ
unfolding scheduler_schedule
scheduler_tick r s =
    let s' = scheduler_schedule (record s { ring = with_current (interrupted r) s.ring }) in
    (s', head_esp r s'.ring)

unfoldable pub scheduler_perform_switch : ℕ → Scheduler → Scheduler × ℕ
unfolding scheduler_schedule
scheduler_perform_switch old_esp s =
    let saved = with_current (λ c. record c { esp = old_esp }) s.ring in
    let s' = scheduler_schedule (record s { ring = saved }) in (s', head_esp old_esp s'.ring)

-- The stack pointer is that of the assembly switch.
unfoldable pub scheduler_block : ℕ → ℕ → Scheduler → Scheduler
unfolding scheduler_perform_switch
scheduler_block wait_obj esp s =
    let asleep = with_current (λ c. record c { wait_obj = wait_obj; state = blocked }) s.ring in
    (scheduler_perform_switch esp (record s { ring = asleep })).0

abbrev pub wake_task : ℕ → Tcb → Tcb
wake_task wait_obj t =
    if is_blocked t.state && (t.wait_obj == wait_obj) then set_state ready t else t

unfoldable pub scheduler_wake : ℕ → Scheduler → Scheduler
scheduler_wake wait_obj s =
    if wait_obj == 0 then s else record s { ring = map (wake_task wait_obj) s.ring }

-- `tcb->next = idle_task->next; idle_task->next = tcb;`
unfoldable pub insert_after : ℕ → Tcb → List Tcb → List Tcb
insert_after idle t [] = []
insert_after idle t (c ∷ rest) =
    if c.addr == idle then c ∷ t ∷ rest else c ∷ insert_after idle t rest

abbrev pub current_is_idle : Scheduler → Bool
current_is_idle s = elim s.ring [ [] ↦ true | c ∷ rest ↦ c.addr == s.idle_task ]

-- scheduler_init: the boot context becomes the idle task.
unfoldable pub scheduler_init : ℕ → ℕ → Scheduler → Scheduler
scheduler_init addr kernel_directory s = record s {
  ring =
      record {
        addr = addr;
        esp = 0;
        state = running;
        pid = s.next_pid;
        stack_base = 0;
        cr3 = kernel_directory;
        tty = 0;
        wait_obj = 0;
        exit_code = 0;
      }
      ∷ [];
  idle_task = addr;
  next_pid = (s.next_pid + 1) % 2 ^ 32;
}

unfoldable pub scheduler_current_tty : Scheduler → ℕ
scheduler_current_tty s = elim s.ring [ [] ↦ 0 | c ∷ rest ↦ c.tty ]

-- The end of create_task, create_user_task_from_segments and fork_current: a ready task with the
-- next pid, linked behind the idle task. The pid is returned.
unfoldable pub add_task : (addr esp stack_base cr3 tty : ℕ) → Scheduler → Scheduler × ℕ
unfolding insert_after
add_task addr esp stack_base cr3 tty s =
    let child : Tcb = record {
      addr = addr;
      esp = esp;
      state = ready;
      pid = s.next_pid;
      stack_base = stack_base;
      cr3 = cr3;
      tty = tty;
      wait_obj = 0;
      exit_code = 0;
    } in
    (
      record s {
        ring = insert_after s.idle_task child s.ring;
        next_pid = (s.next_pid + 1) % 2 ^ 32;
      },
      s.next_pid,
    )

-- `none` is the error -1. `addr`, `frame` and `dir` are what kmalloc, the copied stack page and
-- paging_clone_directory give.
unfoldable pub fork_current : (addr frame dir : ℕ) → Scheduler → Option (Scheduler × ℕ)
unfolding add_task scheduler_current_tty
fork_current addr frame dir s =
    if current_is_idle s then none else some (add_task addr frame 0 dir (scheduler_current_tty s) s)

abbrev pub current_pid : Scheduler → ℕ
current_pid s = elim s.ring [ [] ↦ 0 | c ∷ rest ↦ c.pid ]

unfoldable pub scheduler_exit_current : ℕ → Scheduler → Scheduler
unfolding scheduler_wake
scheduler_exit_current exit_code s =
    if current_is_idle s
    then s
    else scheduler_wake (current_pid s) (record s {
      ring = with_current (λ c. record c { state = exited; exit_code = exit_code }) s.ring;
    })

-- The ring from the task at an address on: `at` rotates, `before` holds what was passed.
unfoldable pub rotate_to : ℕ → List Tcb → List Tcb → List Tcb
rotate_to addr before [] = before
rotate_to addr before (t ∷ ts) =
    if t.addr == addr then t ∷ ts ++ before else rotate_to addr (before ++ t ∷ []) ts

unfoldable pub first_pid : ℕ → List Tcb → Option Tcb
first_pid pid [] = none
first_pid pid (t ∷ ts) = if t.pid == pid then some t else first_pid pid ts

-- The pid is an int as its bit pattern: negative from 2 ^ 31 on. The walk starts at the idle task.
unfoldable pub scheduler_find_by_pid : ℕ → Scheduler → Option Tcb
unfolding rotate_to first_pid
scheduler_find_by_pid pid s =
    if (s.idle_task == 0) || leb (2 ^ 31) pid
    then none
    else first_pid pid (rotate_to s.idle_task [] s.ring)

-- scheduler_wait_pid up to its sleep: an answer, or the state in which the caller sleeps.
pub data WaitStart : Type 0 where
  no_such_pid : WaitStart
  answered : ℕ → WaitStart
  asleep : Scheduler → WaitStart

unfoldable pub wait_start : ℕ → ℕ → Scheduler → WaitStart
unfolding scheduler_find_by_pid scheduler_block
wait_start pid esp s =
    if leb (2 ^ 31) pid then no_such_pid else elim (scheduler_find_by_pid pid s) [
      | none ↦ no_such_pid
      | some child ↦
          if is_exited child.state
          then answered child.exit_code
          else asleep (scheduler_block pid esp s)
    ]

-- And behind it: `none` is -1.
unfoldable pub wait_end : ℕ → Scheduler → Option ℕ
unfolding scheduler_find_by_pid
wait_end pid s = elim (scheduler_find_by_pid pid s) [
  | none ↦ none
  | some child ↦ some child.exit_code
]
