-- ===== src/Scheduler/Fair.antt =====
-- That the round robin of scheduler_tick starves no runnable task.
use mboot.Prelude.{
  ℕ, zero, suc, ◌+◌, ◌≤◌, ◌≡◌, refl, ap, ◌∙◌, true, some, List, [], ◌∷◌, ◌++◌, append_assoc, ◌⊎◌,
  inl, inr, arith, length, length-append, Bool-cases,
}
use mboot.Scheduler.{
  Tcb, Scheduler, is_runnable, next_runnable, schedule_ring, scheduler_schedule, scheduler_tick,
  set_state, interrupted, running,
}

-- The scheduler behind `n` timer interrupts, the i-th of which finds its frame at `frames i`.
unfoldable pub after_ticks : (ℕ → ℕ) → ℕ → Scheduler → Scheduler
after_ticks frames zero s = s
after_ticks frames (suc n) s = after_ticks (λ i. frames (suc i)) n (scheduler_tick (frames 0) s).0

-- The walk stops at a runnable task, or earlier at one before it.
pub next_runnable-cases :
    (pre : List Tcb) (t : Tcb) (post : List Tcb)
    → is_runnable t.state ≡ true
    → (next_runnable (pre ++ t ∷ post) ≡ some (pre, t, post))
      ⊎ ((p : List Tcb) × (n : Tcb) × (q : List Tcb) × (pre ≡ p ++ n ∷ q)
          × (next_runnable (pre ++ t ∷ post) ≡ some (p, n, q ++ t ∷ post)))
unfolding next_runnable
next_runnable-cases [] t post r = inl (rw r)
next_runnable-cases (x ∷ pre) t post r = elim (Bool-cases (is_runnable x.state)) [
  | inl e ↦ inr ([], x, pre, refl, rw e)
  | inr e ↦ elim (next_runnable-cases pre t post r) [
    | inl f ↦ inl (rw (e, f))
    | inr (p, n, q, d, f) ↦ inr (x ∷ p, n, q, ap (λ l. x ∷ l) d, rw (e, f))
  ]
]

pub schedule_ring-next :
    (c : Tcb) (rest p q : List Tcb) (t : Tcb)
    → next_runnable rest ≡ some (p, t, q)
    → schedule_ring (c ∷ rest) ≡ set_state running t ∷ q ++ c ∷ p
unfolding schedule_ring
schedule_ring-next c rest p q t e = rw (schedule_ring, e)

-- What the i-th interrupt leaves when it resumes `t`: t runs on its own page directory, and the stub
-- gets the frame pointer that t was interrupted with.
abbrev pub Resumes : Tcb → Scheduler × ℕ → Type 0
Resumes t o =
    ((rest : List Tcb) × (o.0.ring ≡ set_state running t ∷ rest))
    × (o.0.cr3 ≡ t.cr3)
    × (o.1 ≡ t.esp)

module _ (t : Tcb) (r : is_runnable t.state ≡ true) where
  tick-Resumes :
      (frame : ℕ) (s : Scheduler) (c : Tcb) (rest p q : List Tcb)
      → s.ring ≡ c ∷ rest
      → next_runnable rest ≡ some (p, t, q)
      → Resumes t (scheduler_tick frame s)
  unfolding scheduler_tick scheduler_schedule
  tick-Resumes frame s c rest p q e n =
      let k = schedule_ring-next (interrupted frame c) rest p q t n in
      ((q ++ interrupted frame c ∷ p, rw (e, k)), rw (e, k), rw (e, k))

  tick-ring :
      (frame : ℕ) (s : Scheduler) (c : Tcb) (rest p q : List Tcb) (x : Tcb)
      → s.ring ≡ c ∷ rest
      → next_runnable rest ≡ some (p, x, q)
      → (scheduler_tick frame s).0.ring ≡ set_state running x ∷ q ++ interrupted frame c ∷ p
  unfolding scheduler_tick scheduler_schedule
  tick-ring frame s c rest p q x e n = rw (e, schedule_ring-next (interrupted frame c) rest p q x n)

  turn :
      (bound : ℕ) (frames : ℕ → ℕ) (s : Scheduler) (c : Tcb) (pre post : List Tcb)
      → s.ring ≡ c ∷ pre ++ t ∷ post
      → length pre ≤ bound
      → (n : ℕ) × (n ≤ length pre) × Resumes t (scheduler_tick (frames n) (after_ticks frames n s))
  unfolding after_ticks
  turn zero frames s c pre post e b = elim (next_runnable-cases pre t post r) [
    | inl f ↦ (0, omega arith, tick-Resumes (frames 0) s c (pre ++ t ∷ post) pre post e f)
    | inr (p, x, q, d, f) ↦ absurd (omega (arith, b, ap length d ∙ length-append p (x ∷ q)))
  ]
  turn (suc bound) frames s c pre post e b = elim (next_runnable-cases pre t post r) [
    | inl f ↦ (0, omega arith, tick-Resumes (frames 0) s c (pre ++ t ∷ post) pre post e f)
    | inr (p, x, q, d, f) ↦
        let shorter : length pre ≡ length p + suc (length q) =
          ap length d ∙ length-append p (x ∷ q) in
        let (n, le, res) =
          turn bound (λ i. frames (suc i)) (scheduler_tick (frames 0) s).0 (set_state running x) q
            (post ++ interrupted (frames 0) c ∷ p)
            (tick-ring (frames 0) s c (pre ++ t ∷ post) p (q ++ t ∷ post) x e f
              ∙ ap (λ l. set_state running x ∷ l)
                  (append_assoc q (t ∷ post) (interrupted (frames 0) c ∷ p)))
            (omega (arith, b, shorter)) in
        (suc n, omega (arith, le, shorter), res)
  ]

  -- A runnable task with k tasks between the current one and it resumes, with the frame pointer and
  -- the page directory it was left with, at one of the next k + 1 timer interrupts, whatever the
  -- frames of those interrupts and the states of the tasks between.
  pub tick-Fair :
      (frames : ℕ → ℕ) (s : Scheduler) (c : Tcb) (pre post : List Tcb)
      → s.ring ≡ c ∷ pre ++ t ∷ post
      → (n : ℕ) × (n ≤ length pre) × Resumes t (scheduler_tick (frames n) (after_ticks frames n s))
  tick-Fair frames s c pre post e = turn (length pre) frames s c pre post e (omega arith)
