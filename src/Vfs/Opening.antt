-- ===== src/Vfs/Opening.antt =====
-- A new socket, and a new descriptor.
use mboot.Prelude.{
  ℕ, zero, suc, ◌+◌, ◌-◌, ◌≤◌, ◌<◌, ◌≡◌, refl, ap, ◌∙◌, sym, Bool, true, false, not, ◌&&◌, ◌||◌,
  Option, none, some, List, [], ◌∷◌, ◌==◌, if◌then◌else◌, if-All, arith, set, get_or-set, length,
  inl, inr, ◌⊎◌, Bool-cases, leb, ltb, ℤ, pos, negsuc,
}
use mathlib.Core.Path.{subst}
use mathlib.Core.Option.{some-injective}
use mboot.Net.Socket.{
  Socket, zeroed_socket, socket_at, socket_create, free_socket, new_socket, placed,
  socket_index_from_handle, socket_handle_from_index,
}
use mboot.Vfs.Backends.{Backends, cpuinfo_handle_id}
use mboot.Vfs.Fds.{free_fd, attached, vfs_attach_handle, is_empty, handle_at}
use mboot.Vfs.Refs.{socket, slot_of, slot_from, refs_of}
use mboot.Vfs.Balance.{Written-Adds, write-socket}
use mboot.Vfs.Conserved.{IsCounted}

-- For each of the 16 places, the handle of a socket leads back to its place, and no other handle
-- leads to it.
pub socket_index_from_handle-socket_handle_from_index :
    (i : ℕ) (h : ℤ)
    → i < 16
    → (socket_index_from_handle (socket_handle_from_index i) ≡ some i)
      × (socket_index_from_handle h ≡ some i → socket_handle_from_index i ≡ h)
unfolding socket_index_from_handle socket_handle_from_index
socket_index_from_handle-socket_handle_from_index i h k = (forth, back h)
  where
    forth :
        (if ltb (4095 + i) 4095 || leb 16 (4095 + i - 4095) then none else some (4095 + i - 4095))
        ≡ some i
    forth =
        let inside : (ltb (4095 + i) 4095 || leb 16 (4095 + i - 4095)) ≡ false =
          ground (arith, k) in
        rw inside (ap some (omega arith))

    back : (h : ℤ) → socket_index_from_handle h ≡ some i → negsuc (4095 + i) ≡ h
    back (pos n) e = ground (arith, e)
    back (negsuc n) e = ap negsuc (ground (arith, e))

free_socket-free :
    (k i : ℕ) (sockets : List Socket)
    → free_socket k sockets ≡ some i
    → (k ≤ i) × (i - k < length sockets) × ((socket_at sockets (i - k)).used ≡ false)
unfolding free_socket
free_socket-free k i [] e = ground (arith, e)
free_socket-free k i (s ∷ sockets) e = elim (Bool-cases s.used) [
  | inl u ↦
      let (a, b, c) =
        free_socket-free (k + 1) i sockets
          (ap (λ u. if u then free_socket (k + 1) sockets else some k) (sym u) ∙ e) in
      let n : i - k ≡ suc (i - (k + 1)) = omega (arith, a) in
      (omega (arith, a), omega (arith, a, b), ap (λ n. (socket_at (s ∷ sockets) n).used) n ∙ c)
  | inr u ↦
      let same : k ≡ i =
        some-injective k i
          (ap (λ u. if u then free_socket (k + 1) sockets else some k) (sym u) ∙ e) in
      let n : i - k ≡ 0 = omega (arith, same) in
      (omega (arith, same), omega (arith, n), ap (λ n. (socket_at (s ∷ sockets) n).used) n ∙ u)
]

free_socket-none :
    (k : ℕ) (sockets : List Socket)
    → free_socket k sockets ≡ none
    → (i : ℕ) → i < length sockets
    → (socket_at sockets i).used ≡ true
unfolding free_socket
free_socket-none k [] e i h = elim h [ ]
free_socket-none k (s ∷ sockets) e i h = elim (Bool-cases s.used) [
  | inr u ↦ ground (arith, e, u)
  | inl u ↦
      later u
        (free_socket-none (k + 1) sockets
          (ap (λ u. if u then free_socket (k + 1) sockets else some k) (sym u) ∙ e))
        i h
]
  where
    later :
        s.used ≡ true
        → ((j : ℕ) → j < length sockets → (socket_at sockets j).used ≡ true)
        → (j : ℕ) → j < suc (length sockets)
        → (socket_at (s ∷ sockets) j).used ≡ true
    later u rest zero h = u
    later u rest (suc j) h = rest j (omega (arith, h))

-- A UDP socket, or a raw one for ICMP, of the internet family.
abbrev pub is_supported : (domain kind protocol : ℕ) → Bool
is_supported domain kind protocol =
    (domain == 2) && (((kind == 2) && (protocol == 0)) || ((kind == 3) && (protocol == 1)))

module _ {Disk : Type 0} (fds : List ℤ) (st : Backends Disk) (c : IsCounted fds st)
    (domain kind protocol : ℕ) where
  -- What a creation gives: nothing, for an unsupported socket or on a full table, or the handle of
  -- a new socket, which one descriptor is to hold.
  abbrev pub Created : Option (ℤ × List Socket) → Type 0
  Created none =
      (is_supported domain kind protocol ≡ false)
      ⊎ ((i : ℕ) → i < length st.sockets → (socket_at st.sockets i).used ≡ true)
  Created (some (h, sockets)) =
      (is_supported domain kind protocol ≡ true)
      × IsCounted (h ∷ fds) (record st { sockets = sockets })
      × ((i : ℕ) × (i < 16)
          × (h ≡ socket_handle_from_index i)
          × ((socket_at st.sockets i).used ≡ false)
          × (socket_at sockets i ≡ new_socket domain kind protocol i))

  placed-Created :
      (o : Option ℕ)
      → is_supported domain kind protocol ≡ true
      → free_socket 0 st.sockets ≡ o
      → Created (placed domain kind protocol st.sockets o)
  placed-Created none supported e = inr (free_socket-none 0 st.sockets e)
  placed-Created (some i) supported e =
      let (a, b, unused) = free_socket-free 0 i st.sockets e in
      let inside : i < 16 = omega (arith, b, c.tables.sockets) in
      let h = socket_handle_from_index i in
      let s = new_socket domain kind protocol i in
      let names : slot_of h ≡ some (socket i) =
        ap (λ o. slot_from o (cpuinfo_handle_id h))
          (socket_index_from_handle-socket_handle_from_index i h inside).0 in
      let free : (socket_at st.sockets i).used ≡ false =
        ap (λ n. (socket_at st.sockets n).used) (omega arith) ∙ unused in
      let none_yet : refs_of (socket i) st ≡ 0 =
        ap (λ u. if u then (socket_at st.sockets i).refs else 0) free in
      let (tables, adds) =
        Written-Adds (write-socket h st c.tables i inside names s) (omega (arith, none_yet)) in
      (
        supported,
        record { tables = tables; refs = λ t. omega (arith, adds t, c.refs t) },
        (
          i,
          inside,
          refl,
          free,
          get_or-set st.sockets i s zeroed_socket (omega (arith, c.tables.sockets, inside)),
        ),
      )

  -- When each socket and each cpuinfo file counts the descriptors that hold it, a creation fails
  -- only for an unsupported family, kind or protocol, or when every socket is in use. Otherwise it
  -- takes a socket that was not in use, and each socket and each cpuinfo file counts the
  -- descriptors that hold it once one holds the new handle.
  pub socket_create-Created : Created (socket_create domain kind protocol st.sockets)
  unfolding socket_create
  socket_create-Created =
      if-All Created (not (domain == 2)) (λ a. inl (ground (arith, a)))
        (λ a.
          if-All Created ((kind == 2) && not (protocol == 0)) (λ b. inl (ground (arith, b)))
            (λ b.
              if-All Created ((kind == 3) && not (protocol == 1)) (λ d. inl (ground (arith, d)))
                (λ d.
                  if-All Created (not (kind == 2) && not (kind == 3)) (λ e. inl (ground (arith, e)))
                    (λ e.
                      placed-Created (free_socket 0 st.sockets) (ground (arith, a, b, d, e))
                        refl))))

-- Every descriptor of a table below a number is taken.
abbrev pub TakenBelow : List ℤ → ℕ → Type 0
TakenBelow table n = (i : ℕ) → i < n → is_empty (handle_at table i) ≡ false

-- What an attach gives: an error on a full table, or the lowest empty descriptor.
abbrev pub Attached : ℤ → List ℤ → ℤ × List ℤ → Type 0
Attached h table (negsuc n, table') = (table' ≡ table) × TakenBelow table (length table)
Attached h table (pos fd, table') =
    (table' ≡ set table fd h)
    × (fd < length table)
    × (is_empty (handle_at table fd) ≡ true)
    × TakenBelow table fd

below-suc :
    (h : ℤ) (table : List ℤ) (n : ℕ)
    → is_empty h ≡ false
    → TakenBelow table n
    → TakenBelow (h ∷ table) (suc n)
below-suc h table n e t zero k = e
below-suc h table n e t (suc i) k = t i (omega (arith, k))

free_fd-lowest :
    (k : ℕ) (table : List ℤ)
    → ((free_fd k table ≡ none) × TakenBelow table (length table))
      ⊎ ((i : ℕ) × (free_fd k table ≡ some (k + i))
          × (i < length table)
          × (is_empty (handle_at table i) ≡ true)
          × TakenBelow table i)
unfolding free_fd
free_fd-lowest k [] = inl (refl, λ i h. absurd (omega (arith, h)))
free_fd-lowest k (h ∷ table) = elim (Bool-cases (is_empty h)) [
  | inl e ↦
      inr (zero, rw e (ap some (omega arith)), omega arith, e, λ i z. absurd (omega (arith, z)))
  | inr e ↦ elim (free_fd-lowest (k + 1) table) [
    | inl (n, t) ↦ inl (rw e n, below-suc h table (length table) e t)
    | inr (i, f, b, z, t) ↦
        inr (suc i, rw e (f ∙ ap some (omega arith)), omega (arith, b), z, below-suc h table i e t)
  ]
]

-- A handle is attached at the lowest empty descriptor, and nothing else of the table changes. It
-- fails only when no descriptor is empty.
pub vfs_attach_handle-Attached :
    (h : ℤ) (table : List ℤ) → Attached h table (vfs_attach_handle h table)
unfolding vfs_attach_handle
vfs_attach_handle-Attached h table = elim (free_fd-lowest 0 table) [
  | inl (n, t) ↦ subst (λ o. Attached h table (attached h table o)) (sym n) (refl, t)
  | inr (i, f, b, z, t) ↦
      subst (λ o. Attached h table (attached h table o)) (sym (f ∙ ap some {y = i} (omega arith)))
        (refl, b, z, t)
]
