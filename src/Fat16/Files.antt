-- ===== src/Fat16/Files.antt =====
-- The open files of stage2/fat16.c: dup, close, read, write and the size of a file.
--
-- The state is the volume and the table of open files. A result of a function that only looks at the
-- disk is the returned number, the bytes copied to the caller's buffer, and the state. A division by a
-- cluster size of 0 has no result.
pub mod Contents
pub mod Walk
pub mod Reading
pub mod Sequence
use mboot.Prelude.{
  ℕ, zero, suc, ◌+◌, ◌-◌, ◌*◌, ◌/◌, ◌%◌, ◌^◌, Bool, true, false, ◌||◌, ◌&&◌, not, Option, none,
  some, List, [], ◌∷◌, ◌++◌, ◌==◌, ltb, leb, if◌then◌else◌, get_or, set, take, drop, length, ℤ, pos,
  negsuc, opposite,
}
use mboot.Fat16.Disk.{Disk, read_bytes, buffer_of}
use mboot.Fat16.Volume.{Bpb, cluster_size, get_next_cluster, cluster_offset}

-- `fat16_file_t`. The path is a string.
pub record Fat16File : Type 0 where
  pub path : List ℕ
  pub start_cluster : ℕ
  pub size : ℕ
  pub offset : ℕ
  pub used : Bool
  pub refs : ℕ

abbrev pub max_open_files : ℕ
max_open_files = 8

-- `g_bpb`, `g_part_offset`, `open_files`
pub record Fat16 : Type 0 where
  pub bpb : Bpb
  pub part_offset : ℕ
  pub open_files : List Fat16File

abbrev pub zeroed_file : Fat16File
zeroed_file = record { path = []; start_cluster = 0; size = 0; offset = 0; used = false; refs = 0 }

abbrev pub file_at : Fat16 → ℕ → Fat16File
file_at st fd = get_or st.open_files fd zeroed_file

abbrev pub with_file : Fat16 → ℕ → Fat16File → Fat16
with_file st fd file = record st { open_files = set st.open_files fd file }

-- The guard of the functions on a descriptor: the place that it names, if it is in use.
abbrev pub used_file : Fat16 → ℕ → Option ℕ
used_file st fd = if leb max_open_files fd || not (file_at st fd).used then none else some fd

abbrev pub open_file : Fat16 → ℤ → Option ℕ
open_file st (negsuc n) = none
open_file st (pos fd) = used_file st fd

abbrev pub dup_found : Fat16 → Option ℕ → ℤ × Fat16
dup_found st none = (negsuc 0, st)
dup_found st (some fd) =
    let file = file_at st fd in
    (pos fd, with_file st fd (record file { refs = (file.refs + 1) % 2 ^ 32 }))

unfoldable pub fat16_dup : ℤ → Fat16 → ℤ × Fat16
fat16_dup fd st = dup_found st (open_file st fd)

-- `--refs` in 32 bits; the place is free when it falls to 0.
abbrev pub drop_ref : Fat16File → Fat16File
drop_ref file =
    let refs = (file.refs + 2 ^ 32 - 1) % 2 ^ 32 in
    if ltb 0 refs then record file { refs = refs } else record file { refs = refs; used = false }

abbrev pub close_found : Fat16 → Option ℕ → ℤ × Fat16
close_found st none = (negsuc 0, st)
close_found st (some fd) = (pos 0, with_file st fd (drop_ref (file_at st fd)))

unfoldable pub fat16_close : ℤ → Fat16 → ℤ × Fat16
fat16_close fd st = close_found st (open_file st fd)

unfoldable pub fat16_write : ℤ → List ℕ → (size : ℕ) → Fat16 → ℤ × Fat16
fat16_write fd buffer size st = (negsuc 0, st)

-- A read outside the table has no result.
abbrev pub size_at : Fat16 → Bool → ℕ → Option ℕ
size_at st true fd = none
size_at st false fd = some (file_at st fd).size

unfoldable pub fat16_get_size : ℤ → Fat16 → Option ℕ
fat16_get_size (negsuc n) st = none
fat16_get_size (pos fd) st = size_at st (leb max_open_files fd) fd

-- `(int)` of a 32-bit number
abbrev pub to_int : ℕ → ℤ
to_int n = if ltb n (2 ^ 31) then pos n else opposite (2 ^ 32 - n)

abbrev pub in_front : List ℕ → Option (List ℕ) → Option (List ℕ)
in_front bytes none = none
in_front bytes (some rest) = some (bytes ++ rest)

module _ (disk : Disk) (part_offset : ℕ) (bpb : Bpb) where
  -- The walk to the cluster of the current offset, `none` past the end of the chain.
  unfoldable pub skip_loop : (skip_clusters cluster : ℕ) → Option ℕ
  skip_loop zero cluster = some cluster
  skip_loop (suc n) cluster =
      let next = get_next_cluster disk part_offset bpb cluster in
      let rest = skip_loop n next in if leb 0xFFF8 next then none else rest

  -- The bytes that the copying loop copies, `none` when the fuel ends. A round is run on the cluster's
  -- bytes, and the loop goes on by the function given.
  abbrev pub copy_round :
      (ℕ → ℕ → Option (List ℕ)) → (cluster offset_in_cluster to_read : ℕ) → List ℕ → Option (List ℕ)
  copy_round go_on cluster offset_in_cluster to_read tmp =
      let room = cluster_size bpb - offset_in_cluster in
      let copy = if ltb to_read room then to_read else room in
      let left = to_read - copy in
      in_front (take copy (drop offset_in_cluster tmp))
        (go_on (if ltb 0 left then get_next_cluster disk part_offset bpb cluster else cluster) left)

  abbrev pub copy_read :
      (ℕ → ℕ → Option (List ℕ))
      → (cluster offset_in_cluster to_read : ℕ) → Option (List ℕ)
      → Option (List ℕ)
  copy_read go_on cluster offset_in_cluster to_read none = some []
  copy_read go_on cluster offset_in_cluster to_read (some tmp) =
      copy_round go_on cluster offset_in_cluster to_read tmp

  unfoldable pub copy_loop : (fuel cluster offset_in_cluster to_read : ℕ) → Option (List ℕ)
  copy_loop zero cluster offset_in_cluster to_read = none
  copy_loop (suc fuel) cluster offset_in_cluster to_read =
      let round =
        copy_read (λ next left. copy_loop fuel next 0 left) cluster offset_in_cluster to_read
          (read_bytes disk (cluster_offset part_offset bpb cluster) (cluster_size bpb)) in
      if ltb 0 to_read && ltb cluster 0xFFF8 then round else some []

-- The returned number, the bytes copied and the state.
abbrev pub Outcome : Type 0
Outcome = ℤ × List ℕ × Fat16

abbrev pub copied : Fat16 → ℕ → Option (List ℕ) → Option Outcome
copied st fd none = none
copied st fd (some bytes) =
    let file = file_at st fd in
    some (
      to_int (length bytes),
      bytes,
      with_file st fd (record file { offset = (file.offset + length bytes) % 2 ^ 32 }),
    )

-- The end of fat16_read, on the buffer for a cluster. Each round copies a byte or more, so that the
-- fuel is enough.
abbrev pub copied_by : Disk → Fat16 → (fd size cluster : ℕ) → Option (List ℕ) → Option Outcome
copied_by disk st fd size cluster none = some (negsuc 0, [], st)
copied_by disk st fd size cluster (some tmp) = copied st fd (
    copy_loop disk st.part_offset st.bpb (size + 1) cluster
      ((file_at st fd).offset % cluster_size st.bpb) size)

abbrev pub walked : Disk → Fat16 → (fd size : ℕ) → Option ℕ → Option Outcome
walked disk st fd size none = some (negsuc 0, [], st)
walked disk st fd size (some cluster) =
    copied_by disk st fd size cluster (buffer_of (cluster_size st.bpb))

abbrev pub read_file : Disk → Fat16 → (fd size : ℕ) → Option Outcome
read_file disk st fd size =
    let file = file_at st fd in
    let remaining = file.size - file.offset in
    if leb file.size file.offset
    then some (pos 0, [], st)
    else if cluster_size st.bpb == 0
    then none
    else walked disk st fd (if ltb remaining size then remaining else size) (
        skip_loop disk st.part_offset st.bpb (file.offset / cluster_size st.bpb) file.start_cluster)

abbrev pub read_open : Disk → Fat16 → (size : ℕ) → Option ℕ → Option Outcome
read_open disk st size none = some (negsuc 0, [], st)
read_open disk st size (some fd) =
    if size == 0 then some (pos 0, [], st) else read_file disk st fd size

unfoldable pub fat16_read : Disk → ℤ → (size : ℕ) → Fat16 → Option Outcome
fat16_read disk fd size st = read_open disk st size (open_file st fd)
