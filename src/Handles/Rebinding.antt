-- ===== src/Handles/Rebinding.antt =====
-- The tables that vfs_dup2 and vfs_exit_fds of stage2/vfs.c leave.
use mboot.Prelude.{
  ℕ, zero, suc, ◌≤◌, ◌≡◌, ◌≢◌, refl, sym, ap, ◌∙◌, true, false, ◌||◌, Option, none, some, List, [],
  ◌∷◌, ◌==◌, ◌⊎◌, inl, inr, if-All, arith, set, get_or-set_ne, length, replicate, leb, ℤ, pos,
  negsuc, Bool-cases, leb→le, ==_iff,
}
use mathlib.Core.Path.{subst}
use mathlib.Core.Bool.{true≢false}
use mboot.Vfs.Backends.{Backends, Driver, empty_handle, tty_handle_id, file_close, exit_handle}
use mboot.Vfs.Fds.{
  exit_loop, exit_with, vfs_close, vfs_dup2, vfs_exit_fds, foreign_tty, handle_at, is_empty,
  is_zero,
}

-- A handle of a terminal other than the task's on a standard descriptor.
abbrev pub Foreign : (tty newfd : ℕ) → ℤ → Type 0
Foreign tty newfd handle = (newfd ≤ 2) × ((t : ℕ) × (tty_handle_id handle ≡ some t) × (t ≢ tty))

-- The calls that vfs_dup2 refuses: a descriptor out of range, an empty one to duplicate, or another
-- task's terminal for a standard descriptor.
abbrev pub Refused : ℕ → List ℤ → ℤ → ℤ → Type 0
Refused tty table (negsuc m) newfd = Unit
Refused tty table (pos oldfd) (negsuc n) = Unit
Refused tty table (pos oldfd) (pos newfd) =
    (16 ≤ oldfd)
    ⊎ ((16 ≤ newfd)
        ⊎ ((handle_at table oldfd ≡ empty_handle)
            ⊎ ((oldfd ≢ newfd) × Foreign tty newfd (handle_at table oldfd))))

-- What the others give: the new descriptor, with the old one's handle, in a table that is otherwise
-- as it was.
abbrev pub Replaced : List ℤ → ℤ → ℤ → ℤ → List ℤ → Type 0
Replaced table (negsuc m) newfd result table' = ⊥
Replaced table (pos oldfd) (negsuc n) result table' = ⊥
Replaced table (pos oldfd) (pos newfd) result table' =
    (result ≡ pos newfd) × (table' ≡ set table newfd (handle_at table oldfd))

abbrev pub Rebound :
    {Disk : Type 0} → ℕ → List ℤ → Backends Disk → ℤ → ℤ → ℤ × List ℤ × Backends Disk → Type 0
Rebound tty table st oldfd newfd r =
    ((r ≡ (negsuc 0, table, st)) × Refused tty table oldfd newfd)
    ⊎ (Replaced table oldfd newfd r.0 r.1 × ¬ Refused tty table oldfd newfd)

is_empty-eq : (h : ℤ) → is_empty h ≡ true → h ≡ empty_handle
is_empty-eq (negsuc zero) e = refl
is_empty-eq (negsuc (suc n)) e = absurd (true≢false (sym e))
is_empty-eq (pos n) e = absurd (true≢false (sym e))

not_empty : (h : ℤ) → is_empty h ≡ false → h ≢ empty_handle
not_empty h e k = true≢false (sym (ap is_empty k) ∙ e)

set-get_or : (table : List ℤ) (i : ℕ) → set table i (handle_at table i) ≡ table
set-get_or [] i = refl
set-get_or (t ∷ table) zero = refl
set-get_or (t ∷ table) (suc i) = ap (λ l. t ∷ l) (set-get_or table i)

set-set : (table : List ℤ) (i : ℕ) (g h : ℤ) → set (set table i g) i h ≡ set table i h
set-set [] i g h = refl
set-set (t ∷ table) zero g h = refl
set-set (t ∷ table) (suc i) g h = ap (λ l. t ∷ l) (set-set table i g h)

out_of_range :
    (oldfd newfd : ℕ) (h : ℤ) {R : Type 0}
    → ((leb 16 oldfd || leb 16 newfd) || is_empty h) ≡ true
    → (16 ≤ oldfd) ⊎ ((16 ≤ newfd) ⊎ ((h ≡ empty_handle) ⊎ R))
out_of_range oldfd newfd h e = elim (Bool-cases (leb 16 oldfd)) [
  | inl a ↦ inl (leb→le 16 oldfd a)
  | inr a ↦ elim (Bool-cases (leb 16 newfd)) [
    | inl b ↦ inr (inl (leb→le 16 newfd b))
    | inr b ↦ inr (inr (inl (is_empty-eq h (ground (arith, a, b, e)))))
  ]
]

in_range :
    (oldfd newfd : ℕ) (h : ℤ)
    → ((leb 16 oldfd || leb 16 newfd) || is_empty h) ≡ false
    → (16 ≤ oldfd) ⊎ ((16 ≤ newfd) ⊎ (h ≡ empty_handle))
    → ⊥
in_range oldfd newfd h e (inl a) = ground (arith, e, a)
in_range oldfd newfd h e (inr (inl b)) = ground (arith, e, b)
in_range oldfd newfd h e (inr (inr c)) = not_empty h (ground (arith, e)) c

none_of : {A B C D : Type 0} → (A ⊎ (B ⊎ C) → ⊥) → (D → ⊥) → A ⊎ (B ⊎ (C ⊎ D)) → ⊥
none_of kept other (inl a) = kept (inl a)
none_of kept other (inr (inl b)) = kept (inr (inl b))
none_of kept other (inr (inr (inl c))) = kept (inr (inr c))
none_of kept other (inr (inr (inr d))) = other d

module _ {Disk : Type 0} (driver : Option (Driver Disk)) where
  foreign_tty-true :
      (tty newfd : ℕ) (o : Option ℕ)
      → foreign_tty driver tty newfd o ≡ true
      → (newfd ≤ 2) × ((t : ℕ) × (o ≡ some t) × (t ≢ tty))
  foreign_tty-true tty newfd none e = absurd (true≢false (sym e))
  foreign_tty-true tty newfd (some t) e = (ground (arith, e), (t, refl, ground (arith, e)))

  foreign_tty-false :
      (tty newfd t : ℕ) (o : Option ℕ)
      → foreign_tty driver tty newfd o ≡ false
      → newfd ≤ 2
      → o ≡ some t
      → t ≢ tty
      → ⊥
  foreign_tty-false tty newfd t o e small is n =
      let k : foreign_tty driver tty newfd (some t) ≡ true = ground (arith, small, n) in
      true≢false (sym k ∙ sym (ap (foreign_tty driver tty newfd) is) ∙ e)

  -- The table when the new descriptor is closed first, whatever the close says.
  over_open :
      (oldfd newfd : ℕ) (table : List ℤ) (st : Backends Disk)
      → oldfd ≢ newfd
      → let t = (vfs_close driver (pos newfd) table st).1 in
        set t newfd (handle_at t oldfd) ≡ set table newfd (handle_at table oldfd)
  unfolding vfs_close
  over_open oldfd newfd table st ne =
      if-All Same (leb 16 newfd || is_empty (handle_at table newfd)) (λ e. refl)
        (λ e.
          if-All
            (λ (t : List ℤ).
              set t newfd (handle_at t oldfd) ≡ set table newfd (handle_at table oldfd))
            (is_zero (file_close driver (handle_at table newfd) st).0)
            (λ z.
              ap (set (set table newfd empty_handle) newfd)
                (get_or-set_ne table newfd oldfd empty_handle empty_handle (λ k. ne (sym k)))
              ∙ set-set table newfd empty_handle (handle_at table oldfd))
            (λ z. refl))
    where
      Same : ℤ × List ℤ × Backends Disk → Type 0
      Same c = set c.1 newfd (handle_at c.1 oldfd) ≡ set table newfd (handle_at table oldfd)

  pub vfs_dup2-Rebound :
      (tty : ℕ) (table : List ℤ) (st : Backends Disk) (oldfd newfd : ℤ)
      → Rebound tty table st oldfd newfd (vfs_dup2 driver tty oldfd newfd table st)
  unfolding vfs_dup2
  vfs_dup2-Rebound tty table st (negsuc m) newfd = inl (refl, tt)
  vfs_dup2-Rebound tty table st (pos oldfd) (negsuc n) = inl (refl, tt)
  vfs_dup2-Rebound tty table st (pos oldfd) (pos newfd) =
      let handle = handle_at table oldfd in
      if-All Outcome ((leb 16 oldfd || leb 16 newfd) || is_empty handle)
        (λ e. inl (refl, out_of_range oldfd newfd handle e))
        (λ e.
          let kept : (16 ≤ oldfd) ⊎ ((16 ≤ newfd) ⊎ (handle ≡ empty_handle)) → ⊥ =
            in_range oldfd newfd handle e in
          if-All Outcome (oldfd == newfd)
            (λ k.
              let same : oldfd ≡ newfd = (==_iff oldfd newfd).0 k in
              inr (
                (
                  refl,
                  sym (set-get_or table newfd)
                      ∙ ap (λ i. set table newfd (handle_at table i)) (sym same),
                ),
                none_of kept (λ (ne, f). ne same),
              ))
            (λ k.
              let ne : oldfd ≢ newfd = ground (arith, k) in
              if-All Outcome (foreign_tty driver tty newfd (tty_handle_id handle))
                (λ f.
                  inl (
                    refl,
                    inr (inr (inr (ne, foreign_tty-true tty newfd (tty_handle_id handle) f))),
                  ))
                (λ f.
                  let own = none_of kept (λ (_, (small, (t, is, other))).
                    foreign_tty-false tty newfd t (tty_handle_id handle) f small is other) in
                  if-All Outcome (is_empty (handle_at table newfd)) (λ z. inr ((refl, refl), own))
                    (λ z. inr ((refl, over_open oldfd newfd table st ne), own)))))
    where
      Outcome : ℤ × List ℤ × Backends Disk → Type 0
      Outcome = Rebound tty table st (pos oldfd) (pos newfd)

-- An exit leaves a table of empty descriptors, once the driver can close.
exit_loop-empty :
    {Disk : Type 0} (driver : Option (Driver Disk)) (close : ℤ → Disk → ℤ × Disk) (table : List ℤ)
    (st : Backends Disk)
    → (exit_loop driver close table st).0 ≡ replicate (length table) empty_handle
unfolding exit_loop
exit_loop-empty driver close [] st = refl
exit_loop-empty driver close (t ∷ table) st =
    ap (λ l. empty_handle ∷ l) (exit_loop-empty driver close table (exit_handle close t st))

pub vfs_exit_fds-empty :
    {Disk : Type 0} (driver : Driver Disk) (close : ℤ → Disk → ℤ × Disk) (table : List ℤ)
    (st : Backends Disk)
    → driver.close_file ≡ some close
    → (vfs_exit_fds (some driver) table st).0 ≡ replicate (length table) empty_handle
unfolding vfs_exit_fds
vfs_exit_fds-empty driver close table st e =
    subst (λ o. (exit_with (some driver) table st o).0 ≡ replicate (length table) empty_handle)
      (sym e) (exit_loop-empty (some driver) close table st)
