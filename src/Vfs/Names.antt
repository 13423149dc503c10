-- ===== src/Vfs/Names.antt =====
-- The handle of a device that is opened by its name, read by the functions on handles.
use mathlib.Core.Path.{subst}
use mboot.Prelude.{
  ℕ, ◌+◌, ◌-◌, ◌≤◌, ◌<◌, ◌≡◌, refl, ap, ◌∙◌, sym, true, false, ◌&&◌, ◌||◌, none, some, List, [],
  ◌∷◌, leb, ltb, if◌then◌else◌, arith, Option-cases, inl, inr, ◌⊎◌, ℤ, negsuc, le→leb,
}
use mboot.Net.Udp.{udp_server_bind}
use mboot.Vfs.{normalize_path, path_eq, path_has_prefix, parse_uint16}
use mboot.Vfs.Ports.{decimal, is_numeral, parse_uint16-decimal}
use mboot.Vfs.Backends.{Backends, empty_handle, tty_handle_id, udp_tty_handle_port}
use mboot.Vfs.Devices.{
  UdpDevices, dev, null_name, zero_name, full_name, tty_name, tty_path_id, udp_tty_for_port,
  udp_open_port, udp_open_at, udp_bound, udp_tty_open, open_cpuinfo, open_tty, device_named,
  device_open,
}

-- The devices that have a name: the task's terminal, a terminal by its place, and the UDP device of a
-- numeral's port.
pub data Device : Type 0 where
  null_device : Device
  zero_device : Device
  full_device : Device
  own_tty : Device
  tty_at : ℕ → Device
  udp_at : List ℕ → Device

abbrev pub device_name : Device → List ℕ
device_name null_device = null_name
device_name zero_device = zero_name
device_name full_device = full_name
device_name own_tty = tty_name
device_name (tty_at k) = dev (116 ∷ 116 ∷ 121 ∷ (49 + k) ∷ [])
device_name (udp_at s) = dev (117 ∷ 100 ∷ 112 ∷ s)

abbrev pub IsDevice : Device → Type 0
IsDevice null_device = Unit
IsDevice zero_device = Unit
IsDevice full_device = Unit
IsDevice own_tty = Unit
IsDevice (tty_at k) = k < 4
IsDevice (udp_at s) = (is_numeral s ≡ true) × (decimal 0 s ≤ 65535)

-- What the handle of a device says. A UDP device has none when its table or the servers are full.
abbrev pub HandleOf : ℕ → UdpDevices → Device → ℤ → Type 0
HandleOf tty devices null_device h = h ≡ negsuc 1
HandleOf tty devices zero_device h = h ≡ negsuc 2
HandleOf tty devices full_device h = h ≡ negsuc 3
HandleOf tty devices own_tty h = tty_handle_id h ≡ some tty
HandleOf tty devices (tty_at k) h = tty_handle_id h ≡ some k
HandleOf tty devices (udp_at s) h =
    (udp_tty_handle_port h ≡ some (decimal 0 s))
    ⊎ ((h ≡ empty_handle)
        × ((udp_tty_for_port (decimal 0 s) devices.udp_ttys ≡ none)
            ⊎ (udp_server_bind (decimal 0 s) devices.servers ≡ none)))

tty-handle : (k : ℕ) → k < 4 → tty_handle_id (negsuc (31 + k)) ≡ some k
unfolding tty_handle_id
tty-handle k h =
    ap (λ b. if b then some (31 + k - 31) else none) {y = true} (ground (arith, h))
    ∙ ap some (omega arith)

udp-handle : (port : ℕ) → udp_tty_handle_port (negsuc (1023 + port)) ≡ some port
unfolding udp_tty_handle_port
udp-handle port =
    ap (λ b. if b then some (1023 + port - 1023) else none) {y = true} (ground arith)
    ∙ ap some (omega arith)

module _ {Disk : Type 0} (tty : ℕ) (st : Backends Disk) (devices : UdpDevices) where
  tty_number : (k : ℕ) → k < 4 → tty_path_id tty (device_name (tty_at k)) ≡ some k
  unfolding tty_path_id path_eq path_has_prefix
  tty_number k h =
      ap (λ b. if b then none else some (49 + k - 49))
        {x = ltb (49 + k) 49 || (ltb 52 (49 + k) || false)} {y = false} (ground (arith, h))
      ∙ ap some (omega arith)

  udp_bound-HandleOf :
      (port : ℕ) (devices' : UdpDevices)
      → let h = (udp_bound port devices' (udp_server_bind port devices.servers)).0 in
        (udp_tty_handle_port h ≡ some port)
        ⊎ ((h ≡ empty_handle) × (udp_server_bind port devices.servers ≡ none))
  udp_bound-HandleOf port devices' = elim (Option-cases (udp_server_bind port devices.servers)) [
    | inl e ↦ inr (ap (λ o. (udp_bound port devices' o).0) e, e)
    | inr (servers, e) ↦
        inl (ap (λ o. udp_tty_handle_port (udp_bound port devices' o).0) e ∙ udp-handle port)
  ]

  udp_open_port-HandleOf :
      (s : List ℕ)
      → IsDevice (udp_at s)
      → HandleOf tty devices (udp_at s) (udp_open_port devices (parse_uint16 s)).0
  udp_open_port-HandleOf s v =
      let port = decimal 0 s in
      let parsed : parse_uint16 s ≡ some port =
        parse_uint16-decimal s
        ∙ ap (λ b. if b then some port else none) {y = true}
            (ap (λ b. b && leb port 65535) v.0 ∙ le→leb port 65535 v.1) in
      subst (λ o. HandleOf tty devices (udp_at s) (udp_open_port devices o).0) (sym parsed)
        (elim (Option-cases (udp_tty_for_port port devices.udp_ttys)) [
          | inl e ↦ inr (ap (λ o. (udp_open_at port devices o).0) e, inl e)
          | inr ((i, ttys), e) ↦
              subst (λ o. HandleOf tty devices (udp_at s) (udp_open_at port devices o).0) (sym e)
                (elim (udp_bound-HandleOf port (record devices { udp_ttys = ttys })) [
                  | inl k ↦ inl k
                  | inr (k, unbound) ↦ inr (k, inr unbound)
                ])
        ])

  device_named-HandleOf :
      (d : Device)
      → tty < 4
      → IsDevice d
      → HandleOf tty devices d (device_named tty (device_name d) st devices).0
  unfolding open_cpuinfo path_eq tty_path_id path_has_prefix udp_tty_open
  device_named-HandleOf null_device t v = refl
  device_named-HandleOf zero_device t v = refl
  device_named-HandleOf full_device t v = refl
  device_named-HandleOf own_tty t v = tty-handle tty t
  device_named-HandleOf (tty_at k) t v =
      ap
        (λ o.
          tty_handle_id
            (open_tty (device_name (tty_at k)) (record st { cpuinfo_files = st.cpuinfo_files })
              devices o).0)
        (tty_number k v)
      ∙ tty-handle k v
  device_named-HandleOf (udp_at s) t v = udp_open_port-HandleOf s v

-- An opening of a path whose name, behind the leading "/" and "./", is that of /dev/null,
-- /dev/zero, /dev/full, /dev/tty, one of /dev/tty1 to /dev/tty4, or /dev/udp with a numeral of at
-- most 65535, by a task on one of the four terminals: the functions on handles read from the handle
-- the terminal or the port of the name, and the first three devices have the handles -2, -3 and -4.
-- A UDP device has no handle only when its table of devices or the servers have no place for the
-- port.
pub device_open-HandleOf :
    {Disk : Type 0} (tty : ℕ) (path : List ℕ) (st : Backends Disk) (devices : UdpDevices)
    (d : Device)
    → tty < 4
    → IsDevice d
    → normalize_path path ≡ device_name d
    → HandleOf tty devices d (device_open tty path st devices).0
unfolding device_open
device_open-HandleOf tty path st devices d t v e =
    subst (λ name. HandleOf tty devices d (device_named tty name st devices).0) (sym e)
      (device_named-HandleOf tty st devices d t v)
