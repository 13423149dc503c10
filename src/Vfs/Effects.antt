-- ===== src/Vfs/Effects.antt =====
-- One descriptor more or less changes the count of the backend that it holds, and no other.
use mboot.Prelude.{
  ℕ, ◌+◌, ◌-◌, ◌<◌, ◌≡◌, refl, ap, ◌∙◌, sym, Bool, true, false, Option, none, some, ◌==◌, ==_iff,
  if◌then◌else◌, if-All, arith, inl, inr, ◌⊎◌, ℤ, pos,
}
use mathlib.Core.Path.{subst}
use mathlib.Core.Bool.{true≢false}
use mboot.Net.Socket.{socket_at, dropped, socket_index_from_handle}
use mboot.Vfs.Backends.{
  Backends, Driver, CpuinfoFile, cpuinfo_at, dropped_cpuinfo, cpuinfo_handle_id, is_device, is_file,
  file_close, dup_handle, exit_handle,
}
use mboot.Vfs.Refs.{
  Slot, socket, cpuinfo, slot_from, slot_of, same_slot, one_if, refs_of, IsTables, of_socket,
  of_cpuinfo, uncounted, handle_cases,
}
use mboot.Vfs.Counts.{
  dropped-value, used, dup-socket, drop-socket, exit-socket, close-socket, used-cpuinfo,
  dup-cpuinfo, drop-cpuinfo, exit-cpuinfo, close-cpuinfo,
}
use mboot.Vfs.Balance.{Live, Adds, Drops, Written-Adds, Written-Drops, write-socket, write-cpuinfo}
use mboot.Vfs.Uncounted.{dup-Alone, exit-Alone, close-Alone, alone-Adds, alone-Drops}

added : (u : Bool) (n : ℕ) → u ≡ true → (if u then n + 1 else 0) ≡ 1 + (if u then n else 0)
added true n e = omega arith
added false n e = absurd (true≢false (sym e))

counted : (u : Bool) (n : ℕ) → u ≡ true → (if u then n else 0) ≡ n
counted u n e = ap (λ b. if b then n else 0) e

cpuinfo_value : CpuinfoFile → ℕ
cpuinfo_value f = if f.used then f.refs else 0

dropped_cpuinfo-value :
    (f : CpuinfoFile) → 0 < f.refs → f.used ≡ true → 1 + cpuinfo_value (dropped_cpuinfo f) ≡ f.refs
unfolding cpuinfo_value
dropped_cpuinfo-value f h u =
    if-All (λ (g : CpuinfoFile). 1 + cpuinfo_value g ≡ f.refs) (f.refs - 1 == 0)
      (λ e. ground (arith, h, e))
      (λ e. ap (λ n. 1 + n) (counted f.used (f.refs - 1) u) ∙ omega (arith, h))

module _ {Disk : Type 0} (h : ℤ) (st : Backends Disk) (tables : IsTables st)
    (live : Live h st) where
  live-slot : (s : Slot) → same_slot s (some s) ≡ true → slot_of h ≡ some s → 0 < refs_of s st
  live-slot s k e = omega (arith, live s, ap (λ o. one_if (same_slot s o)) e, ap one_if k)

  names-socket : (i : ℕ) → socket_index_from_handle h ≡ some i → slot_of h ≡ some (socket i)
  names-socket i e = ap (λ o. slot_from o (cpuinfo_handle_id h)) e

  names-other :
      (id : Option ℕ)
      → socket_index_from_handle h ≡ none
      → cpuinfo_handle_id h ≡ id
      → slot_of h ≡ slot_from none id
  names-other id n d = ap (λ o. slot_from o (cpuinfo_handle_id h)) n ∙ ap (slot_from none) d

  drop-socket-Drops :
      (i : ℕ) (b : i < 16) (e : socket_index_from_handle h ≡ some i) (l : 0 < refs_of (socket i) st)
      → Drops h st (drop-socket h st tables i b e l)
  drop-socket-Drops i b e l =
      let s = socket_at st.sockets i in
      let u = used h st tables i b e l in
      let n = counted s.used s.refs u in
      Written-Drops (write-socket h st tables i b (names-socket i e) (dropped s))
        (omega (arith, dropped-value s (omega (arith, l, n)) u, n))

  drop-cpuinfo-Drops :
      (i : ℕ) (b : i < 4) (n : socket_index_from_handle h ≡ none) (e : cpuinfo_handle_id h ≡ some i)
      (dev : is_device h ≡ true) (file : is_file h ≡ false) (l : 0 < refs_of (cpuinfo i) st)
      → Drops h st (drop-cpuinfo h st tables i b n e dev file l)
  unfolding cpuinfo_value
  drop-cpuinfo-Drops i b n e dev file l =
      let f = cpuinfo_at st.cpuinfo_files i in
      let u = used-cpuinfo h st tables i b n e dev file l in
      let k = counted f.used f.refs u in
      Written-Drops (write-cpuinfo h st tables i b (names-other (some i) n e) (dropped_cpuinfo f))
        (dropped_cpuinfo-value f (omega (arith, l, k)) u ∙ sym k)

  pub dup-Adds : (driver : Option (Driver Disk)) → Adds h st (dup_handle driver h st)
  dup-Adds driver = elim (handle_cases h) [
    | of_socket i b e ↦
        let l = live-slot (socket i) ((==_iff i i).1 refl) (names-socket i e) in
        let s = socket_at st.sockets i in
        subst (Adds h st) (sym (dup-socket h st tables i b e l driver)) (
          Written-Adds
            (write-socket h st tables i b (names-socket i e) (record s { refs = s.refs + 1 }))
            (added s.used s.refs (used h st tables i b e l)))
    | of_cpuinfo i b n e dev file ↦
        let l = live-slot (cpuinfo i) ((==_iff i i).1 refl) (names-other (some i) n e) in
        let f = cpuinfo_at st.cpuinfo_files i in
        subst (Adds h st) (sym (dup-cpuinfo h st tables i b n e dev file l driver)) (
          Written-Adds
            (write-cpuinfo h st tables i b (names-other (some i) n e)
              (record f { refs = f.refs + 1 }))
            (added f.used f.refs (used-cpuinfo h st tables i b n e dev file l)))
    | uncounted n d ↦
        alone-Adds h st (dup_handle driver h st) tables (dup-Alone h st n d driver)
          (names-other none n d)
  ]

  pub exit-Drops : (close : ℤ → Disk → ℤ × Disk) → Drops h st (exit_handle close h st)
  exit-Drops close = elim (handle_cases h) [
    | of_socket i b e ↦
        let l = live-slot (socket i) ((==_iff i i).1 refl) (names-socket i e) in
        subst (Drops h st) (sym (exit-socket h st tables i b e l close)) (drop-socket-Drops i b e l)
    | of_cpuinfo i b n e dev file ↦
        let l = live-slot (cpuinfo i) ((==_iff i i).1 refl) (names-other (some i) n e) in
        subst (Drops h st) (sym (exit-cpuinfo h st tables i b n e dev file l close))
          (drop-cpuinfo-Drops i b n e dev file l)
    | uncounted n d ↦
        alone-Drops h st (exit_handle close h st) tables (exit-Alone h st n d close)
          (names-other none n d)
  ]

  -- A close drops a reference; it fails only for a handle that names no counted backend.
  pub close-Drops :
      (driver : Option (Driver Disk))
      → Drops h st (file_close driver h st).1
        × (((file_close driver h st).0 ≡ pos 0) ⊎ (slot_of h ≡ none))
  close-Drops driver = elim (handle_cases h) [
    | of_socket i b e ↦
        let l = live-slot (socket i) ((==_iff i i).1 refl) (names-socket i e) in
        let k = close-socket h st tables i b e l driver in
        (subst (λ r. Drops h st r.1) (sym k) (drop-socket-Drops i b e l), inl (ap (λ r. r.0) k))
    | of_cpuinfo i b n e dev file ↦
        let l = live-slot (cpuinfo i) ((==_iff i i).1 refl) (names-other (some i) n e) in
        let k = close-cpuinfo h st tables i b n e dev file l driver in
        (
          subst (λ r. Drops h st r.1) (sym k) (drop-cpuinfo-Drops i b n e dev file l),
          inl (ap (λ r. r.0) k),
        )
    | uncounted n d ↦ (
      alone-Drops h st (file_close driver h st).1 tables (close-Alone h st n d driver)
          (names-other none n d),
      inr (names-other none n d),
    )
  ]
