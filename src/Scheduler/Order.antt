-- ===== src/Scheduler/Order.antt =====
-- What scheduler_schedule does with the circular list: it turns it, and nothing else.
use mathlib.Core.Path.{subst}
use mboot.Prelude.{
  ◌≢◌, All-split, All-append, ℕ, if◌then◌else◌, append-nil, ◌≡◌, refl, sym, ap, Bool, ◌∙◌, true,
  false, none, some, List, [], ◌∷◌, ◌++◌, ◌⊎◌, inl, inr, All, map, Bool-cases,
}
use mboot.Scheduler.{
  Tcb, TaskState, is_runnable, is_blocked, running, next_runnable, schedule_ring, set_state,
  Scheduler, scheduler_schedule, scheduler_tick, with_current, interrupted, ready,
}

-- The same circle from another of its elements on.
abbrev pub Rotation {ℓ} : {A : Type ℓ} → List A → List A → Type ℓ
Rotation {A} xs ys = (a : List A) × (b : List A) × (xs ≡ a ++ b) × (ys ≡ b ++ a)

abbrev pub Passed : Tcb → Type 0
Passed t = is_runnable t.state ≡ false

-- What the walk finds: nothing, and then no task behind the current one is runnable, or the first
-- runnable one.
pub next_runnable-split :
    (ts : List Tcb)
    → ((next_runnable ts ≡ none) × All Passed ts)
      ⊎ ((p : List Tcb) × (n : Tcb) × (q : List Tcb) × (ts ≡ p ++ n ∷ q)
          × All Passed p
          × (is_runnable n.state ≡ true)
          × (next_runnable ts ≡ some (p, n, q)))
unfolding next_runnable
next_runnable-split [] = inl (refl, tt)
next_runnable-split (t ∷ ts) = elim (Bool-cases (is_runnable t.state)) [
  | inl r ↦ inr ([], t, ts, refl, tt, r, rw r)
  | inr r ↦ elim (next_runnable-split ts) [
    | inl (e, a) ↦ inl (rw (r, e), (r, a))
    | inr (p, n, q, d, a, k, e) ↦ inr (t ∷ p, n, q, ap (λ l. t ∷ l) d, (r, a), k, rw (r, e))
  ]
]

-- The list behind a switch.
pub schedule_ring-cases :
    (c : Tcb) (rest : List Tcb)
    → ((schedule_ring (c ∷ rest) ≡ (if is_blocked c.state then set_state running c else c) ∷ rest)
        × All Passed rest)
      ⊎ ((p : List Tcb) × (n : Tcb) × (q : List Tcb) × (rest ≡ p ++ n ∷ q)
          × All Passed p
          × (is_runnable n.state ≡ true)
          × (schedule_ring (c ∷ rest) ≡ set_state running n ∷ q ++ c ∷ p))
unfolding schedule_ring
schedule_ring-cases c rest = elim (next_runnable-split rest) [
  | inl (e, a) ↦ inl (rw (schedule_ring, e), a)
  | inr (p, n, q, d, a, k, e) ↦ inr (p, n, q, d, a, k, rw (schedule_ring, e))
]

pub map-append {ℓ} :
    {A : Type ℓ} (f : Tcb → A) (xs ys : List Tcb) → map f (xs ++ ys) ≡ map f xs ++ map f ys
map-append f [] ys = refl
map-append f (x ∷ xs) ys = ap (λ l. f x ∷ l) (map-append f xs ys)

-- Whatever of a task is no part of its state is the same behind a switch, and the tasks stand in the
-- same circular order.
pub schedule_ring-Rotation {ℓ} :
    {A : Type ℓ} (f : Tcb → A)
    → ((s : TaskState) (t : Tcb) → f (set_state s t) ≡ f t)
    → (ring : List Tcb) → Rotation (map f ring) (map f (schedule_ring ring))
unfolding schedule_ring
schedule_ring-Rotation f same [] = ([], [], refl, refl)
schedule_ring-Rotation f same (c ∷ rest) = elim (schedule_ring-cases c rest) [
  | inl (e, a) ↦ (
    map f (c ∷ rest),
    [],
    sym (append-nil (map f (c ∷ rest))),
    ap (map f) e ∙ ap (λ x. x ∷ map f rest) (still (is_blocked c.state)),
  )
  | inr (p, n, q, d, a, k, e) ↦ (
    map f (c ∷ p),
    map f (n ∷ q),
    ap (λ l. f c ∷ map f l) d ∙ ap (λ l. f c ∷ l) (map-append f p (n ∷ q)),
    ap (map f) e
        ∙ ap (λ x. x ∷ map f (q ++ c ∷ p)) (same running n)
        ∙ ap (λ l. f n ∷ l) (map-append f q (c ∷ p)),
  )
]
  where
    still : (b : Bool) → f (if b then set_state running c else c) ≡ f c
    still true = same running c
    still false = refl

-- A task but for its state.
abbrev pub stateless : Tcb → Tcb
stateless t = set_state ready t

-- A timer interrupt saves its frame in the current task and turns the circle of tasks: but for the
-- tasks' states nothing else in any task changes, and none is lost, added or moved.
pub tick-Rotation :
    (frame : ℕ) (s : Scheduler)
    → Rotation
        (map stateless (with_current (λ c. record c { esp = frame }) s.ring))
        (map stateless (scheduler_tick frame s).0.ring)
unfolding scheduler_tick scheduler_schedule
tick-Rotation frame s =
    subst
      (λ l. Rotation l (map stateless (schedule_ring (with_current (interrupted frame) s.ring))))
      (saved s.ring)
      (schedule_ring-Rotation stateless (λ st t. refl) (with_current (interrupted frame) s.ring))
  where
    saved :
        (l : List Tcb)
        → map stateless (with_current (interrupted frame) l)
          ≡ map stateless (with_current (λ c. record c { esp = frame }) l)
    saved [] = refl
    saved (c ∷ rest) = refl

abbrev pub Distinct : List ℕ → Type 0
Distinct [] = Unit
Distinct (x ∷ xs) = All (λ y. x ≢ y) xs × Distinct xs

abbrev Avoids : List ℕ → List ℕ → Type 0
Avoids xs ys = All (λ x. All (λ y. x ≢ y) ys) xs

Distinct-split : (xs ys : List ℕ) → Distinct (xs ++ ys) → Distinct xs × Distinct ys × Avoids xs ys
Distinct-split [] ys d = (tt, d, tt)
Distinct-split (x ∷ xs) ys d =
    let (a, b, c) = Distinct-split xs ys d.1 in
    let (e, f) = All-split (λ u. x ≢ u) xs ys d.0 in ((e, a), b, (f, c))

Distinct-append : (xs ys : List ℕ) → Distinct xs → Distinct ys → Avoids xs ys → Distinct (xs ++ ys)
Distinct-append [] ys a b c = b
Distinct-append (x ∷ xs) ys a b c =
    (All-append (λ u. x ≢ u) xs ys a.0 c.0, Distinct-append xs ys a.1 b c.1)

Avoids-heads : (xs ys : List ℕ) (x : ℕ) → Avoids xs (x ∷ ys) → All (λ y. x ≢ y) xs × Avoids xs ys
Avoids-heads [] ys x a = (tt, tt)
Avoids-heads (z ∷ xs) ys x a =
    let (p, q) = Avoids-heads xs ys x a.1 in (((λ e. a.0.0 (sym e)), p), (a.0.1, q))

Avoids-sym : (xs ys : List ℕ) → Avoids xs ys → Avoids ys xs
Avoids-sym xs [] a = tt
Avoids-sym xs (y ∷ ys) a = let (p, q) = Avoids-heads xs ys y a in (p, Avoids-sym xs ys q)

pub Distinct-rotated : {xs ys : List ℕ} → Rotation xs ys → Distinct xs → Distinct ys
Distinct-rotated (a, b, e, f) d =
    let (x, y, z) = Distinct-split a b (subst Distinct e d) in
    subst Distinct (sym f) (Distinct-append b a y x (Avoids-sym a b z))

pub All-rotated {ℓ} : (P : ℕ → Type ℓ) {xs ys : List ℕ} → Rotation xs ys → All P xs → All P ys
All-rotated P (a, b, e, f) d =
    let (x, y) = All-split P a b (subst (All P) e d) in subst (All P) (sym f) (All-append P b a y x)
