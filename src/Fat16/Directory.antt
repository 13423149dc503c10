-- ===== src/Fat16/Directory.antt =====
-- The search of a directory and fat16_open of stage2/fat16.c.
pub mod Entries
pub mod Search
pub mod Opening
use mboot.Prelude.{
  ℕ, zero, suc, ◌+◌, ◌-◌, ◌*◌, ◌/◌, ◌%◌, ◌^◌, bit_and, Bool, true, false, ◌&&◌, not, Option, none,
  some, List, [], ◌∷◌, ◌++◌, ◌==◌, ltb, leb, if◌then◌else◌, take, drop, length, ℤ, pos, negsuc,
}
use mboot.Fat16.Disk.{Disk, buffer_of, read_bytes}
use mboot.Fat16.Volume.{Bpb, byte_at, cluster_size, bpb_root_addr, get_next_cluster, cluster_offset}
use mboot.Fat16.Files.{Fat16, Fat16File, with_file}
use mboot.Fat16.Names.{Dir, LfnEntry, dir_of, lfn_of, get_file_name, strcasecmp}
use mboot.Vfs.{normalize_path}

abbrev pub is_pos_zero : ℤ → Bool
is_pos_zero (pos zero) = true
is_pos_zero (pos (suc n)) = false
is_pos_zero (negsuc n) = false

-- `dir->Attr & DIR_ATTR_DIRECTORY`
abbrev pub is_directory : Dir → Bool
is_directory dir = ltb 0 (bit_and dir.attr 0x10)

-- A round of the loop over the entries: on the first byte of an entry, the entry read both ways and
-- the long-name entries seen so far.
abbrev pub scan_entry :
    (target_name : List ℕ)
    → (List LfnEntry → Option Dir)
    → ℕ
    → Dir
    → LfnEntry
    → List LfnEntry
    → Option Dir
scan_entry target_name rest first dir lfn lfn_entries =
    let same = is_pos_zero (strcasecmp (get_file_name dir lfn_entries 256) target_name) in
    if first == 0
    then none
    else if first == 0xE5
    then rest []
    else if dir.attr == 0x0F
    then rest (if ltb (length lfn_entries) 20 then lfn_entries ++ lfn ∷ [] else lfn_entries)
    else if not (is_directory dir) && same
    then some dir
    else rest []

unfoldable pub scan : (target_name : List ℕ) → (entries : ℕ) → List ℕ → List LfnEntry → Option Dir
scan target_name zero buffer lfn_entries = none
scan target_name (suc n) buffer lfn_entries =
    scan_entry target_name (scan target_name n (drop 32 buffer)) (byte_at buffer 0) (dir_of buffer)
      (lfn_of buffer) lfn_entries

module _ (disk : Disk) (part_offset : ℕ) (bpb : Bpb) (start_cluster : ℕ)
    (target_name : List ℕ) where
  abbrev pub root_size : ℕ
  root_size = bpb.root_ent_cnt * 32

  -- What is read of a cluster: its address and its size. Cluster 0 stands for the root directory.
  abbrev pub read_size : ℕ → ℕ
  read_size cluster = if cluster == 0 then root_size else cluster_size bpb

  abbrev pub read_offset : ℕ → ℕ
  read_offset cluster =
      if cluster == 0
      then (part_offset + bpb_root_addr bpb) % 2 ^ 32
      else cluster_offset part_offset bpb cluster

  -- The end of a round, on what the entries of the buffer gave and the next cluster; `none` outside
  -- means that the fuel has ended.
  abbrev pub round_end : (ℕ → Option (Option Dir)) → (next : ℕ) → Option Dir → Option (Option Dir)
  round_end go_on next (some dir) = some (some dir)
  round_end go_on next none =
      if start_cluster == 0 then some none else if ltb next 0xFFF8 then go_on next else some none

  abbrev pub dir_round :
      (ℕ → Option (Option Dir)) → (cluster : ℕ) → Option (List ℕ) → Option (Option Dir)
  dir_round go_on cluster none = some none
  dir_round go_on cluster (some buffer) =
      round_end go_on (get_next_cluster disk part_offset bpb cluster)
        (scan target_name (read_size cluster / 32) buffer [])

  unfoldable pub dir_loop : (fuel cluster : ℕ) → Option (Option Dir)
  dir_loop zero cluster = none
  dir_loop (suc fuel) cluster =
      dir_round (dir_loop fuel) cluster (read_bytes disk (read_offset cluster) (read_size cluster))

  -- The buffer is that of a cluster or of the root directory.
  abbrev pub dir_with : (fuel : ℕ) → Option (List ℕ) → Option (Option Dir)
  dir_with fuel none = some none
  dir_with fuel (some buffer) = dir_loop fuel start_cluster

  unfoldable pub find_file_in_dir : (fuel : ℕ) → Option (Option Dir)
  unfolding dir_loop
  find_file_in_dir fuel = dir_with fuel (buffer_of (read_size start_cluster))

-- The first place that is not in use, from the i-th on.
unfoldable pub free_file : ℕ → List Fat16File → Option ℕ
free_file i [] = none
free_file i (f ∷ files) = let rest = free_file (i + 1) files in if f.used then rest else some i

-- The name is copied by 255 bytes.
abbrev pub new_file : List ℕ → Dir → Fat16File
new_file fname dir = record {
  path = take 255 fname;
  start_cluster = dir.fst_clus_lo;
  size = dir.file_size;
  offset = 0;
  used = true;
  refs = 1;
}

abbrev pub place_file : List ℕ → Dir → Fat16 → Option ℕ → ℤ × Fat16
place_file fname dir st none = (negsuc 0, st)
place_file fname dir st (some i) = (pos i, with_file st i (new_file fname dir))

abbrev pub open_found : List ℕ → Fat16 → Option Dir → ℤ × Fat16
open_found fname st none = (negsuc 0, st)
open_found fname st (some dir) = place_file fname dir st (free_file 0 st.open_files)

abbrev pub open_if : List ℕ → Fat16 → Option (Option Dir) → Option (ℤ × Fat16)
open_if fname st none = none
open_if fname st (some found) = some (open_found fname st found)

-- The loop in front of the name is that of normalize_path. The search of the root directory ends in
-- its first round.
unfoldable pub fat16_open : Disk → (path : List ℕ) → Fat16 → Option (ℤ × Fat16)
unfolding find_file_in_dir
fat16_open disk [] st = some (negsuc 0, st)
fat16_open disk (c ∷ path) st =
    let fname = normalize_path (c ∷ path) in
    open_if fname st (find_file_in_dir disk st.part_offset st.bpb 0 fname 1)
