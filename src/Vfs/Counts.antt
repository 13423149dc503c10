-- ===== src/Vfs/Counts.antt =====
-- What the functions on a handle do to the place of the table that it names.
use mboot.Prelude.{
  ℕ, ◌+◌, ◌-◌, ◌<◌, ◌≡◌, refl, ap, ◌∙◌, true, false, Option, none, some, ◌==◌, lt→ltb,
  if◌then◌else◌, if-All, if-Both, arith, set, inl, inr, Bool-cases, ℤ, pos, negsuc,
}
use mboot.Net.Socket.{
  Socket, socket_at, zeroed_socket, used_socket, changed, dropped, socket_index_from_handle,
  socket_from_handle, socket_handle_valid, is_found, socket_dup, socket_close,
}
use mboot.Vfs.Backends.{
  Backends, Driver, CpuinfoFile, cpuinfo_at, cpuinfo_handle_id, change_cpuinfo, dropped_cpuinfo,
  on_cpuinfo, cpuinfo_close, cpuinfo_dup, device_close, device_dup, is_device, is_file,
  with_sockets, with_cpuinfo, disk_dup, disk_close, file_close, dup_handle, exit_handle,
}
use mboot.Vfs.Refs.{socket_refs, cpuinfo_refs, IsTables}

abbrev pub socket_value : Socket → ℕ
socket_value s = if s.used then s.refs else 0

pub dropped-value :
    (s : Socket) → 0 < s.refs → s.used ≡ true → socket_value (dropped s) + 1 ≡ s.refs
dropped-value s h u =
    ap (λ r. socket_value (if r == 0 then zeroed_socket else record s { refs = r }) + 1)
      (ap (λ b. if b then s.refs - 1 else s.refs) (lt→ltb 0 s.refs h))
    ∙ if-Both (λ (b : Socket) (n : ℕ). socket_value b + 1 ≡ n) (s.refs - 1 == 0) {x = zeroed_socket}
        {y = record s { refs = s.refs - 1 }} {u = 1} {v = s.refs} (λ e. refl)
        (λ e. rw u (omega (arith, h)))
    ∙ if-All (λ n. n ≡ s.refs) (s.refs - 1 == 0) (λ e. ground (arith, h, e)) (λ e. refl)

module _ {Disk : Type 0} (h : ℤ) (st : Backends Disk) (tables : IsTables st) where
  module _ (i : ℕ) (b : i < 16) (e : socket_index_from_handle h ≡ some i)
      (live : 0 < socket_refs st.sockets i) where
    pub used : (socket_at st.sockets i).used ≡ true
    used = elim (Bool-cases (socket_at st.sockets i).used) [
      | inl k ↦ k
      | inr k ↦ ground (arith, k, live)
    ]

    from : socket_from_handle h st.sockets ≡ some i
    unfolding socket_from_handle
    from = ap (used_socket st.sockets) e ∙ ap (λ u. if u then some i else none) used

    valid : socket_handle_valid h st.sockets ≡ true
    unfolding socket_handle_valid
    valid = ap is_found from

    -- The functions change the socket.
    pub dup-socket :
        (driver : Option (Driver Disk))
        → dup_handle driver h st ≡ record st {
          sockets =
              set st.sockets i
                (record (socket_at st.sockets i) { refs = (socket_at st.sockets i).refs + 1 });
        }
    unfolding dup_handle socket_dup
    dup-socket driver =
        ap
          (λ b.
            if b
            then (with_sockets st (socket_dup h st.sockets)).1
            else if is_device h
            then (with_cpuinfo st (device_dup h st.cpuinfo_files)).1
            else if is_file h
            then disk_dup driver h st
            else st)
          valid
        ∙ ap
            (λ o.
              (with_sockets st
                (changed (λ (s : Socket). record s { refs = s.refs + 1 }) st.sockets o)).1)
            from

    abbrev pub drop-socket : Backends Disk
    drop-socket = record st { sockets = set st.sockets i (dropped (socket_at st.sockets i)) }

    pub exit-socket : (close : ℤ → Disk → ℤ × Disk) → exit_handle close h st ≡ drop-socket
    unfolding exit_handle socket_close
    exit-socket close =
        ap
          (λ b.
            if b
            then (with_sockets st (socket_close h st.sockets)).1
            else if is_file h
            then record st { disk = (close h st.disk).1 }
            else if is_device h
            then (with_cpuinfo st (device_close h st.cpuinfo_files)).1
            else st)
          valid
        ∙ ap (λ o. (with_sockets st (changed dropped st.sockets o)).1) from

    pub close-socket :
        (driver : Option (Driver Disk)) → file_close driver h st ≡ (pos 0, drop-socket)
    unfolding file_close socket_close
    close-socket driver =
        ap
          (λ b.
            if b
            then with_sockets st (socket_close h st.sockets)
            else if is_device h
            then with_cpuinfo st (device_close h st.cpuinfo_files)
            else disk_close driver h st)
          valid
        ∙ ap (λ o. with_sockets st (changed dropped st.sockets o)) from

  module _ (i : ℕ) (b : i < 4) (n : socket_index_from_handle h ≡ none)
      (e : cpuinfo_handle_id h ≡ some i) (dev : is_device h ≡ true) (file : is_file h ≡ false)
      (live : 0 < cpuinfo_refs st.cpuinfo_files i) where
    pub used-cpuinfo : (cpuinfo_at st.cpuinfo_files i).used ≡ true
    used-cpuinfo = elim (Bool-cases (cpuinfo_at st.cpuinfo_files i).used) [
      | inl k ↦ k
      | inr k ↦ ground (arith, k, live)
    ]

    change-found :
        (f : CpuinfoFile → CpuinfoFile)
        → change_cpuinfo f st.cpuinfo_files (cpuinfo_handle_id h)
          ≡ (pos 0, set st.cpuinfo_files i (f (cpuinfo_at st.cpuinfo_files i)))
    change-found f =
        ap (change_cpuinfo f st.cpuinfo_files) e
        ∙ ap
            (λ u.
              if u
              then (pos 0, set st.cpuinfo_files i (f (cpuinfo_at st.cpuinfo_files i)))
              else (negsuc 0, st.cpuinfo_files))
            used-cpuinfo

    invalid : socket_handle_valid h st.sockets ≡ false
    unfolding socket_handle_valid socket_from_handle
    invalid = ap (λ o. is_found (used_socket st.sockets o)) n

    pub dup-cpuinfo :
        (driver : Option (Driver Disk))
        → dup_handle driver h st ≡ record st {
          cpuinfo_files = set st.cpuinfo_files i (record (cpuinfo_at st.cpuinfo_files i) {
            refs = (cpuinfo_at st.cpuinfo_files i).refs + 1;
          });
        }
    unfolding dup_handle device_dup cpuinfo_dup
    dup-cpuinfo driver =
        ap
          (λ b.
            if b
            then (with_sockets st (socket_dup h st.sockets)).1
            else if is_device h
            then (with_cpuinfo st (device_dup h st.cpuinfo_files)).1
            else if is_file h
            then disk_dup driver h st
            else st)
          invalid
        ∙ ap
            (λ b.
              if b
              then (with_cpuinfo st (device_dup h st.cpuinfo_files)).1
              else if is_file h
              then disk_dup driver h st
              else st)
            dev
        ∙ ap (λ o. (with_cpuinfo st (on_cpuinfo cpuinfo_dup h st.cpuinfo_files o)).1) e
        ∙ ap (λ c. (with_cpuinfo st c).1)
            (change-found (λ (f : CpuinfoFile). record f { refs = f.refs + 1 }))

    abbrev pub drop-cpuinfo : Backends Disk
    drop-cpuinfo = record st {
      cpuinfo_files = set st.cpuinfo_files i (dropped_cpuinfo (cpuinfo_at st.cpuinfo_files i));
    }

    closing : with_cpuinfo st (device_close h st.cpuinfo_files) ≡ (pos 0, drop-cpuinfo)
    unfolding device_close cpuinfo_close
    closing =
        ap (λ o. with_cpuinfo st (on_cpuinfo cpuinfo_close h st.cpuinfo_files o)) e
        ∙ ap (with_cpuinfo st) (change-found dropped_cpuinfo)

    pub exit-cpuinfo : (close : ℤ → Disk → ℤ × Disk) → exit_handle close h st ≡ drop-cpuinfo
    unfolding exit_handle
    exit-cpuinfo close =
        ap
          (λ b.
            if b
            then (with_sockets st (socket_close h st.sockets)).1
            else if is_file h
            then record st { disk = (close h st.disk).1 }
            else if is_device h
            then (with_cpuinfo st (device_close h st.cpuinfo_files)).1
            else st)
          invalid
        ∙ ap
            (λ b.
              if b
              then record st { disk = (close h st.disk).1 }
              else if is_device h
              then (with_cpuinfo st (device_close h st.cpuinfo_files)).1
              else st)
            file
        ∙ ap (λ b. if b then (with_cpuinfo st (device_close h st.cpuinfo_files)).1 else st) dev
        ∙ ap (λ r. r.1) closing

    pub close-cpuinfo :
        (driver : Option (Driver Disk)) → file_close driver h st ≡ (pos 0, drop-cpuinfo)
    unfolding file_close
    close-cpuinfo driver =
        ap
          (λ b.
            if b
            then with_sockets st (socket_close h st.sockets)
            else if is_device h
            then with_cpuinfo st (device_close h st.cpuinfo_files)
            else disk_close driver h st)
          invalid
        ∙ ap
            (λ b.
              if b
              then with_cpuinfo st (device_close h st.cpuinfo_files)
              else disk_close driver h st)
            dev
        ∙ closing
