-- ===== src/Vfs/Refs.antt =====
-- The reference counts of sockets and cpuinfo files are the numbers of descriptors that hold them.
use mboot.Prelude.{
  ℕ, zero, suc, ◌+◌, ◌-◌, ◌<◌, ◌≡◌, refl, ap, ◌∙◌, sym, Bool, true, false, ◌&&◌, ◌||◌, Option, none,
  some, List, [], ◌∷◌, ◌==◌, ==_iff, ltb, leb, if◌then◌else◌, arith, set, get_or, length,
  get_or-set, get_or-set_ne, inl, inr, Bool-cases, ℤ, pos, negsuc,
}
use mboot.Net.Socket.{Socket, socket_at, socket_index_from_handle}
use mboot.Vfs.Backends.{Backends, CpuinfoFile, cpuinfo_at, cpuinfo_handle_id, is_device, is_file}

-- A socket or a cpuinfo file, by its place.
pub data Slot : Type 0 where
  socket : ℕ → Slot
  cpuinfo : ℕ → Slot

abbrev pub slot_from : (index id : Option ℕ) → Option Slot
slot_from (some i) id = some (socket i)
slot_from none (some i) = some (cpuinfo i)
slot_from none none = none

-- What a handle names.
abbrev pub slot_of : ℤ → Option Slot
slot_of h = slot_from (socket_index_from_handle h) (cpuinfo_handle_id h)

abbrev pub same_slot : Slot → Option Slot → Bool
same_slot s none = false
same_slot (socket i) (some (socket j)) = i == j
same_slot (socket i) (some (cpuinfo j)) = false
same_slot (cpuinfo i) (some (socket j)) = false
same_slot (cpuinfo i) (some (cpuinfo j)) = i == j

abbrev pub one_if : Bool → ℕ
one_if b = if b then 1 else 0

-- How many of the descriptors hold a backend.
abbrev pub held : Slot → List ℤ → ℕ
held s [] = 0
held s (h ∷ fds) = one_if (same_slot s (slot_of h)) + held s fds

-- The references that a backend counts while it is in use.
abbrev pub socket_refs : List Socket → ℕ → ℕ
socket_refs sockets i = if (socket_at sockets i).used then (socket_at sockets i).refs else 0

abbrev pub cpuinfo_refs : List CpuinfoFile → ℕ → ℕ
cpuinfo_refs files i = if (cpuinfo_at files i).used then (cpuinfo_at files i).refs else 0

abbrev pub refs_of : {Disk : Type 0} → Slot → Backends Disk → ℕ
refs_of (socket i) st = socket_refs st.sockets i
refs_of (cpuinfo i) st = cpuinfo_refs st.cpuinfo_files i

-- A write to one place of a table.
pub value-set {ℓ} :
    {A : Type ℓ} (f : A → ℕ) (xs : List A) (i j : ℕ) (v d : A)
    → i < length xs
    → f (get_or (set xs i v) j d) ≡ (if j == i then f v else f (get_or xs j d))
value-set f xs i j v d h = elim (Bool-cases (j == i)) [
  | inl e ↦
      rw e (ap (λ k. f (get_or (set xs i v) k d)) ((==_iff j i).0 e) ∙ ap f (get_or-set xs i v d h))
  | inr e ↦ rw e (ap f (get_or-set_ne xs i j v d (λ k. ground (arith, e, (==_iff j i).1 (sym k)))))
]

pub record IsTables {Disk : Type 0} (st : Backends Disk) : Type 0 where
  pub sockets : length st.sockets ≡ 16
  pub cpuinfo_files : length st.cpuinfo_files ≡ 4

-- What a handle is.
pub data HandleCase (h : ℤ) : Type 0 where
  of_socket : (i : ℕ) → i < 16 → socket_index_from_handle h ≡ some i → HandleCase h
  of_cpuinfo :
      (i : ℕ)
      → i < 4
      → socket_index_from_handle h ≡ none
      → cpuinfo_handle_id h ≡ some i
      → is_device h ≡ true
      → is_file h ≡ false
      → HandleCase h
  uncounted : socket_index_from_handle h ≡ none → cpuinfo_handle_id h ≡ none → HandleCase h

pub handle_cases : (h : ℤ) → HandleCase h
unfolding socket_index_from_handle cpuinfo_handle_id
handle_cases (pos n) = uncounted refl refl
handle_cases (negsuc zero) = uncounted refl refl
handle_cases (negsuc (suc n)) = elim (Bool-cases (ltb (suc n) 4095 || leb 16 (suc n - 4095))) [
  | inr e ↦ of_socket (suc n - 4095) (ground (arith, e)) (rw e)
  | inl e ↦ elim (Bool-cases (leb 7 (suc n) && ltb (suc n) 11)) [
    | inl k ↦ of_cpuinfo (suc n - 7) (ground (arith, k)) (rw e) (rw k) refl refl
    | inr k ↦ uncounted (rw e) (rw k)
  ]
]
