-- ===== src/Scheduler/Find.antt =====
-- scheduler_find_by_pid: a task in the circular list is found by its pid.
use mathlib.Core.Path.{subst}
use mboot.Prelude.{
  ℕ, ◌≡◌, ◌≢◌, refl, sym, ap, ◌∙◌, some, List, [], ◌∷◌, ◌++◌, append_assoc, ◌⊎◌, inl, inr, arith,
  All, ==_iff, Bool-cases, ◌==◌, ◌<◌, ◌^◌, ◌||◌, leb, false, none, if◌then◌else◌,
}
use mboot.Scheduler.{Tcb, Scheduler, rotate_to, first_pid, scheduler_find_by_pid}
use mboot.Scheduler.Order.{Rotation, Distinct, Distinct-rotated, map-append}
use mboot.Scheduler.Running.{pids}

abbrev pub In : Tcb → List Tcb → Type 0
In t [] = ⊥
In t (x ∷ xs) = (x ≡ t) ⊎ In t xs

In-append : (t : Tcb) (xs ys : List Tcb) → In t (xs ++ ys) → In t xs ⊎ In t ys
In-append t [] ys m = inr m
In-append t (x ∷ xs) ys m = elim m [
  | inl e ↦ inl (inl e)
  | inr n ↦ elim (In-append t xs ys n) [ inl k ↦ inl (inr k) | inr k ↦ inr k ]
]

In-left : (t : Tcb) (xs ys : List Tcb) → In t xs → In t (xs ++ ys)
In-left t [] ys m = elim m [ ]
In-left t (x ∷ xs) ys m = elim m [ inl e ↦ inl e | inr n ↦ inr (In-left t xs ys n) ]

In-right : (t : Tcb) (xs ys : List Tcb) → In t ys → In t (xs ++ ys)
In-right t [] ys m = m
In-right t (x ∷ xs) ys m = inr (In-right t xs ys m)

In-rotated : (t : Tcb) {xs ys : List Tcb} → Rotation xs ys → In t xs → In t ys
In-rotated t (a, b, e, f) m = subst (In t) (sym f) (elim (In-append t a b (subst (In t) e m)) [
  | inl k ↦ In-right t b a k
  | inr k ↦ In-left t b a k
])

All-In {ℓ} : (P : ℕ → Type ℓ) (t : Tcb) (xs : List Tcb) → All P (pids xs) → In t xs → P t.pid
All-In P t [] a m = elim m [ ]
All-In P t (x ∷ xs) a m = elim m [
  | inl e ↦ subst (λ (u : Tcb). P u.pid) e a.0
  | inr n ↦ All-In P t xs a.1 n
]

first_pid-In :
    (t : Tcb) (xs : List Tcb) → Distinct (pids xs) → In t xs → first_pid t.pid xs ≡ some t
unfolding first_pid
first_pid-In t [] d m = elim m [ ]
first_pid-In t (x ∷ xs) d m = elim m [
  | inl e ↦
      subst (λ (u : Tcb). first_pid u.pid (x ∷ xs) ≡ some u) e
        (rw ((==_iff x.pid x.pid).1 refl) refl)
  | inr n ↦
      let ne = All-In (λ p. x.pid ≢ p) t xs d.0 n in
      let rest = first_pid-In t xs d.1 n in ground arith
]

rotate_to-Rotation :
    (addr : ℕ) (before l : List Tcb) → Rotation (before ++ l) (rotate_to addr before l)
unfolding rotate_to
rotate_to-Rotation addr before [] = (before, [], refl, refl)
rotate_to-Rotation addr before (t ∷ ts) = elim (Bool-cases (t.addr == addr)) [
  | inl e ↦ (before, t ∷ ts, refl, rw e refl)
  | inr e ↦
      let (a, b, p, q) = rotate_to-Rotation addr (before ++ t ∷ []) ts in
      (a, b, sym (append_assoc before (t ∷ []) ts) ∙ p, rw e q)
]

pids-Rotation : {xs ys : List Tcb} → Rotation xs ys → Rotation (pids xs) (pids ys)
pids-Rotation (a, b, e, f) = (
  pids a,
  pids b,
  ap pids e ∙ map-append (λ t. t.pid) a b,
  ap pids f ∙ map-append (λ t. t.pid) b a,
)

-- When there is an idle task and no two tasks have the same pid, scheduler_find_by_pid finds each
-- task of the list with a pid below 2 ^ 31, wherever the walk starts.
pub scheduler_find_by_pid-In :
    (s : Scheduler) (t : Tcb)
    → Distinct (pids s.ring)
    → In t s.ring
    → s.idle_task ≢ 0
    → t.pid < 2 ^ 31
    → scheduler_find_by_pid t.pid s ≡ some t
unfolding scheduler_find_by_pid
scheduler_find_by_pid-In s t d m idle small =
    let passed : ((s.idle_task == 0) || leb (2 ^ 31) t.pid) ≡ false = ground (arith, idle, small) in
    let rot = rotate_to-Rotation s.idle_task [] s.ring in
    ap (λ b. if b then none else first_pid t.pid (rotate_to s.idle_task [] s.ring)) passed
    ∙ first_pid-In t (rotate_to s.idle_task [] s.ring) (Distinct-rotated (pids-Rotation rot) d)
        (In-rotated t rot m)
