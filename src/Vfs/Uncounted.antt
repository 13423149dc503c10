-- ===== src/Vfs/Uncounted.antt =====
-- A handle of a file, a terminal or another device changes no count.
use mboot.Prelude.{
  ℕ, ◌+◌, ◌≡◌, refl, ap, ◌∙◌, sym, false, Option, none, some, if◌then◌else◌, if-All, arith, length,
  ℤ,
}
use mathlib.Core.Path.{subst}
use mboot.Net.Socket.{
  used_socket, is_found, socket_index_from_handle, socket_from_handle, socket_handle_valid,
  socket_dup, socket_close,
}
use mboot.Vfs.Backends.{
  Backends, Driver, cpuinfo_handle_id, on_cpuinfo, cpuinfo_close, cpuinfo_dup, device_close,
  device_dup, is_device, is_file, with_sockets, with_cpuinfo, disk_dup, dup_with, disk_close,
  close_with, file_close, dup_handle, exit_handle,
}
use mboot.Vfs.Refs.{
  Slot, socket, cpuinfo, slot_of, same_slot, one_if, refs_of, IsTables, socket_refs, cpuinfo_refs,
}
use mboot.Vfs.Balance.{Adds, Drops}

zero-add : (n : ℕ) → n ≡ 0 + n
zero-add n = omega arith

module _ {Disk : Type 0} where
  -- A handle that names no counted backend leaves the tables alone.
  abbrev pub Alone : Backends Disk → Backends Disk → Type 0
  Alone st st' = (st'.sockets ≡ st.sockets) × (st'.cpuinfo_files ≡ st.cpuinfo_files)

  module _ (h : ℤ) (st : Backends Disk) (n : socket_index_from_handle h ≡ none)
      (d : cpuinfo_handle_id h ≡ none) where
    invalid : socket_handle_valid h st.sockets ≡ false
    unfolding socket_handle_valid socket_from_handle
    invalid = ap (λ o. is_found (used_socket st.sockets o)) n

    pub dup-Alone : (driver : Option (Driver Disk)) → Alone st (dup_handle driver h st)
    unfolding dup_handle device_dup
    dup-Alone driver =
        subst
          (λ b. Alone st (
            if b
            then (with_sockets st (socket_dup h st.sockets)).1
            else if is_device h
            then (with_cpuinfo st (device_dup h st.cpuinfo_files)).1
            else if is_file h
            then disk_dup driver h st
            else st))
          (sym invalid)
          (if-All (Alone st) (is_device h)
            (λ e.
              subst
                (λ o. Alone st (with_cpuinfo st (on_cpuinfo cpuinfo_dup h st.cpuinfo_files o)).1)
                (sym d) (refl, refl))
            (λ e. if-All (Alone st) (is_file h) (λ k. disk driver) (λ k. (refl, refl))))
      where
        disk : (driver : Option (Driver Disk)) → Alone st (disk_dup driver h st)
        disk none = (refl, refl)
        disk (some r) = with_file r.dup_file
          where
            with_file : (o : Option (ℤ → Disk → Disk)) → Alone st (dup_with h st o)
            with_file none = (refl, refl)
            with_file (some f) = (refl, refl)

    pub exit-Alone : (close : ℤ → Disk → ℤ × Disk) → Alone st (exit_handle close h st)
    unfolding exit_handle device_close
    exit-Alone close =
        subst
          (λ b. Alone st (
            if b
            then (with_sockets st (socket_close h st.sockets)).1
            else if is_file h
            then record st { disk = (close h st.disk).1 }
            else if is_device h
            then (with_cpuinfo st (device_close h st.cpuinfo_files)).1
            else st))
          (sym invalid)
          (if-All (Alone st) (is_file h) (λ e. (refl, refl))
            (λ e.
              if-All (Alone st) (is_device h)
                (λ k.
                  subst
                    (λ o.
                      Alone st (with_cpuinfo st (on_cpuinfo cpuinfo_close h st.cpuinfo_files o)).1)
                    (sym d) (refl, refl))
                (λ k. (refl, refl))))

    pub close-Alone : (driver : Option (Driver Disk)) → Alone st (file_close driver h st).1
    unfolding file_close device_close
    close-Alone driver =
        subst
          (λ b.
            Alone st
              (if b
                then with_sockets st (socket_close h st.sockets)
                else if is_device h
                then with_cpuinfo st (device_close h st.cpuinfo_files)
                else disk_close driver h st).1)
          (sym invalid)
          (if-All (λ (r : ℤ × Backends Disk). Alone st r.1) (is_device h)
            (λ e.
              subst
                (λ o. Alone st (with_cpuinfo st (on_cpuinfo cpuinfo_close h st.cpuinfo_files o)).1)
                (sym d) (refl, refl))
            (λ e. disk driver))
      where
        disk : (driver : Option (Driver Disk)) → Alone st (disk_close driver h st).1
        disk none = (refl, refl)
        disk (some r) = with_file r.close_file
          where
            with_file : (o : Option (ℤ → Disk → ℤ × Disk)) → Alone st (close_with h st o).1
            with_file none = (refl, refl)
            with_file (some f) = (refl, refl)

  module _ (h : ℤ) (st st' : Backends Disk) (tables : IsTables st) (a : Alone st st')
      (n : slot_of h ≡ none) where
    alone-refs : (s : Slot) → refs_of s st' ≡ refs_of s st
    alone-refs (socket i) = ap (λ l. socket_refs l i) a.0
    alone-refs (cpuinfo i) = ap (λ l. cpuinfo_refs l i) a.1

    alone-IsTables : IsTables st'
    alone-IsTables = record {
      sockets = ap length a.0 ∙ tables.sockets;
      cpuinfo_files = ap length a.1 ∙ tables.cpuinfo_files;
    }

    pub alone-Adds : Adds h st st'
    alone-Adds = (
      alone-IsTables,
      λ s.
          alone-refs s
          ∙ zero-add (refs_of s st)
          ∙ sym (ap (λ o. one_if (same_slot s o) + refs_of s st) n),
    )

    pub alone-Drops : Drops h st st'
    alone-Drops = (
      alone-IsTables,
      λ s.
          ap (λ o. one_if (same_slot s o) + refs_of s st') n
          ∙ sym (zero-add (refs_of s st'))
          ∙ alone-refs s,
    )
