-- ===== src/Scheduler/Adding.antt =====
-- That a task linked behind the idle task keeps the invariant of the list.
use mboot.Prelude.{
  ℕ, ◌+◌, ◌%◌, ◌^◌, ◌<◌, ◌≢◌, refl, List, [], ◌∷◌, inl, inr, arith, All, All-map, Bool-cases, ◌==◌,
}
use mboot.Scheduler.{Tcb, ready, Scheduler, insert_after, add_task}
use mboot.Scheduler.Order.{Distinct}
use mboot.Scheduler.Running.{NotRunning, OthersNotRunning, pids, IsScheduled}

insert_after-All {ℓ} :
    (P : ℕ → Type ℓ) (idle : ℕ) (t : Tcb) (l : List Tcb)
    → P t.pid
    → All P (pids l)
    → All P (pids (insert_after idle t l))
unfolding insert_after
insert_after-All P idle t [] p a = tt
insert_after-All P idle t (c ∷ rest) p a = elim (Bool-cases (c.addr == idle)) [
  | inl e ↦ rw e (a.0, (p, a.1))
  | inr e ↦ rw e (a.0, insert_after-All P idle t rest p a.1)
]

insert_after-Distinct :
    (idle : ℕ) (t : Tcb) (l : List Tcb)
    → All (λ p. p < t.pid) (pids l)
    → Distinct (pids l)
    → Distinct (pids (insert_after idle t l))
unfolding insert_after
insert_after-Distinct idle t [] a d = tt
insert_after-Distinct idle t (c ∷ rest) a d = elim (Bool-cases (c.addr == idle)) [
  | inl e ↦ rw e (
    ((λ f. omega (arith, a.0, f)), d.0),
    (All-map (pids rest) (λ p b f. omega (arith, b, f)) a.1, d.1),
  )
  | inr e ↦ rw e (
    insert_after-All (λ p. c.pid ≢ p) idle t rest (λ f. omega (arith, a.0, f)) d.0,
    insert_after-Distinct idle t rest a.1 d.1,
  )
]

insert_after-NotRunning :
    (idle : ℕ) (t : Tcb) (l : List Tcb)
    → NotRunning t
    → All NotRunning l
    → All NotRunning (insert_after idle t l)
unfolding insert_after
insert_after-NotRunning idle t [] n a = tt
insert_after-NotRunning idle t (c ∷ rest) n a = elim (Bool-cases (c.addr == idle)) [
  | inl e ↦ rw e (a.0, (n, a.1))
  | inr e ↦ rw e (a.0, insert_after-NotRunning idle t rest n a.1)
]

insert_after-OthersNotRunning :
    (idle : ℕ) (t : Tcb) (l : List Tcb)
    → NotRunning t
    → OthersNotRunning l
    → OthersNotRunning (insert_after idle t l)
unfolding insert_after
insert_after-OthersNotRunning idle t [] n a = tt
insert_after-OthersNotRunning idle t (c ∷ rest) n a = elim (Bool-cases (c.addr == idle)) [
  | inl e ↦ rw e (n, a)
  | inr e ↦ rw e (insert_after-NotRunning idle t rest n a)
]

module _ (addr esp stack_base cr3 tty : ℕ) where
  pub add-IsScheduled :
      (s : Scheduler)
      → s.next_pid + 1 < 2 ^ 32
      → IsScheduled s
      → IsScheduled (add_task addr esp stack_base cr3 tty s).0
  unfolding add_task
  add-IsScheduled s b h = record {
    others = insert_after-OthersNotRunning s.idle_task child s.ring refl h.others;
    distinct = insert_after-Distinct s.idle_task child s.ring h.given h.distinct;
    given =
        insert_after-All (λ p. p < (s.next_pid + 1) % 2 ^ 32) s.idle_task child s.ring
          (omega (arith, b)) (All-map (pids s.ring) (λ p a. omega (arith, a, b)) h.given);
  }
    where
      child : Tcb
      child = record {
        addr = addr;
        esp = esp;
        state = ready;
        pid = s.next_pid;
        stack_base = stack_base;
        cr3 = cr3;
        tty = tty;
        wait_obj = 0;
        exit_code = 0;
      }
