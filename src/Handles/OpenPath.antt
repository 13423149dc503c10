-- ===== src/Handles/OpenPath.antt =====
-- vfs_open keeps the counts of the open files, whatever the path names.
use mathlib.Core.Path.{subst}
use mboot.Prelude.{
  ℕ, ◌+◌, ◌^◌, ◌<◌, ◌≡◌, refl, ap, ◌∙◌, sym, true, false, Option, none, some, List, ◌∷◌, ◌++◌,
  if◌then◌else◌, if-All, arith, set, length, length-set, Bool-cases, inl, inr, ℤ, pos, negsuc,
}
use mboot.Vfs.{normalize_path, path_eq}
use mboot.Vfs.Backends.{Backends, CpuinfoFile, is_device, file_close}
use mboot.Vfs.Fds.{is_empty, handle_at, vfs_attach_handle}
use mboot.Vfs.Devices.{
  UdpDevices, DeviceResult, device_open, behind_cpuinfo, open_tty, open_cpuinfo, tty_path_id,
  null_name, zero_name, full_name,
}
use mboot.Vfs.Opens.{
  OpenResult, on_disk, driver_open, file_open, attached_or_closed, attach_opened, vfs_open,
}
use mboot.Vfs.Opening.{Attached, vfs_attach_handle-Attached}
use mboot.Fat16.Disk.{Disk}
use mboot.Fat16.Files.{Fat16}
use mboot.Fat16.Directory.{fat16_open}
use mboot.Handles.Counts.{holds, file_held-append, IsReferenced, fat16_close-Drops}
use mboot.Handles.Driver.{fat16_driver, file_close-disk}
use mboot.Handles.Operations.{Room, small, file_held-set, no_file}
use mboot.Handles.Closing.{is_empty-holds}
use mboot.Handles.Placing.{Placed, fat16_open-Placed}

-- A device's opening does not touch the disk.
abbrev KeepsDisk : Backends Fat16 → DeviceResult Fat16 → Type 0
KeepsDisk st r = r.1.disk ≡ st.disk

module _ (tty : ℕ) (st : Backends Fat16) (devices : UdpDevices) where
  open_tty-disk :
      (name : List ℕ) (st' : Backends Fat16) (o : Option ℕ)
      → st'.disk ≡ st.disk
      → KeepsDisk st (open_tty name st' devices o)
  open_tty-disk name st' none e = e
  open_tty-disk name st' (some t) e = e

  behind-disk :
      (name : List ℕ) (r : ℤ × List CpuinfoFile)
      → KeepsDisk st (behind_cpuinfo tty name st devices r)
  behind-disk name (handle, files) =
      if-All (KeepsDisk st) (is_device handle) (λ e. refl)
        (λ e. open_tty-disk name (record st { cpuinfo_files = files }) (tty_path_id tty name) refl)

  device_open-disk : (path : List ℕ) → KeepsDisk st (device_open tty path st devices)
  unfolding device_open
  device_open-disk path =
      let name = normalize_path path in
      if-All (KeepsDisk st) (path_eq name null_name) (λ e. refl)
        (λ e.
          if-All (KeepsDisk st) (path_eq name zero_name) (λ k. refl)
            (λ k.
              if-All (KeepsDisk st) (path_eq name full_name) (λ f. refl)
                (λ f. behind-disk name (open_cpuinfo name st.cpuinfo_files))))

device-holds : (h : ℤ) → is_device h ≡ true → (i : ℕ) → holds i h ≡ false
device-holds (pos n) e i = cc
device-holds (negsuc n) e i = refl

module _ (others table : List ℤ) (full : length table ≡ 16) where
  -- The table and the disk at the end count each other.
  abbrev pub Kept : OpenResult Fat16 → Type 0
  Kept r = IsReferenced (r.1 ++ others) r.2.disk × (length r.1 ≡ 16)

  module _ (handle : ℤ) (st : Backends Fat16) (devices : UdpDevices)
      (h : IsReferenced (handle ∷ (table ++ others)) st.disk)
      (room : Room (handle ∷ (table ++ others))) where
    attached_or_closed-Kept :
        (r : ℤ × List ℤ)
        → Attached handle table r
        → Kept (attached_or_closed (some fat16_driver) handle st devices r)
    attached_or_closed-Kept (pos fd, table') (e, inside, empty, below) =
        subst (λ t. IsReferenced (t ++ others) st.disk × (length t ≡ 16)) (sym e)
          (
            record {
              table = h.table;
              refs = λ i. omega (
                arith,
                h.refs i,
                file_held-append i table others,
                file_held-append i (set table fd handle) others,
                file_held-set i table fd handle inside,
                no_file i (handle_at table fd) (is_empty-holds (handle_at table fd) empty i),
              );
            },
            length-set table fd handle ∙ full,
          )
    attached_or_closed-Kept (negsuc n, table') (e, below) =
        let ((size, drops), result) =
          fat16_close-Drops st.disk h.table handle (λ i. omega (arith, h.refs i)) (small h room) in
        subst
          (λ t.
            IsReferenced (t ++ others) (file_close (some fat16_driver) handle st).1.disk
            × (length t ≡ 16))
          (sym e)
          (
            subst (IsReferenced (table ++ others)) (sym (file_close-disk handle st))
                (record { table = size; refs = λ i. omega (arith, drops i, h.refs i) }),
            full,
          )

    attach-Kept :
        Kept (
          attached_or_closed (some fat16_driver) handle st devices (vfs_attach_handle handle table))
    attach-Kept =
        attached_or_closed-Kept (vfs_attach_handle handle table)
          (vfs_attach_handle-Attached handle table)

    -- The end of vfs_open, with a handle that has its reference.
    end-Kept :
        (r : OpenResult Fat16) × (attach_opened
            (some fat16_driver)
            table
            (some (handle, st, devices))
          ≡ some r)
        × Kept r
    end-Kept = elim (Bool-cases (is_empty handle)) [
      | inl e ↦ (
        (negsuc 0, table, st, devices),
        ap (λ b. if b then some (negsuc 0, table, st, devices) else some attached_here) e,
        (
          record {
            table = h.table;
            refs = λ i. omega (arith, h.refs i, no_file i handle (is_empty-holds handle e i));
          },
          full,
        ),
      )
      | inr e ↦ (
        attached_here,
        ap (λ b. if b then some (negsuc 0, table, st, devices) else some attached_here) e,
        attach-Kept,
      )
    ]
      where
        attached_here : OpenResult Fat16
        attached_here =
            attached_or_closed (some fat16_driver) handle st devices
              (vfs_attach_handle handle table)

  module _ (disk : Disk) (path : List ℕ) (room : length (table ++ others) + 2 < 2 ^ 32) where
    abbrev Opened : Option (DeviceResult Fat16) → Type 0
    Opened o =
        (r : OpenResult Fat16) × (attach_opened (some fat16_driver) table o ≡ some r) × Kept r

    disk-Kept :
        (st : Backends Fat16) (devices : UdpDevices) (out : ℤ × Fat16)
        → IsReferenced (table ++ others) st.disk
        → Placed st.disk out
        → Opened (on_disk st devices (some out))
    disk-Kept st devices (negsuc n, st') h (z, e) =
        end-Kept (negsuc n) (record st { disk = st' }) devices
          (subst (IsReferenced (negsuc n ∷ (table ++ others))) (sym e)
            (record { table = h.table; refs = λ i. omega (arith, h.refs i) }))
          (omega (arith, room))
    disk-Kept st devices (pos i, st') h (size, adds) =
        end-Kept (pos i) (record st { disk = st' }) devices
          (record { table = size; refs = λ j. omega (arith, adds j, h.refs j) })
          (omega (arith, room))

    driver-Kept :
        (handle : ℤ) (st : Backends Fat16) (devices : UdpDevices)
        → IsReferenced (table ++ others) st.disk
        → Opened (driver_open (some (fat16_open disk)) path (handle, st, devices))
    driver-Kept handle st devices h =
        if-All Opened (is_device handle)
          (λ e.
            end-Kept handle st devices
              (record {
                table = h.table;
                refs = λ i. omega (arith, h.refs i, no_file i handle (device-holds handle e i));
              })
              (omega (arith, room)))
          (λ e.
            let (out, found, placed) = fat16_open-Placed st.disk h.table disk path in
            subst Opened (sym (ap (on_disk st devices) found)) (disk-Kept st devices out h placed))

    pub vfs_open-IsReferenced :
        (tty : ℕ) (st : Backends Fat16) (devices : UdpDevices)
        → IsReferenced (table ++ others) st.disk
        → (r : OpenResult Fat16) × (vfs_open tty
              (some fat16_driver)
              (some (fat16_open disk))
              path
              table
              st
              devices
            ≡ some r)
          × Kept r
    unfolding vfs_open file_open
    vfs_open-IsReferenced tty st devices h =
        let opened = device_open tty path st devices in
        driver-Kept opened.0 opened.1 opened.2
          (subst (IsReferenced (table ++ others)) (sym (device_open-disk tty st devices path)) h)
