-- ===== src/Fat16/Volume.antt =====
-- The volume of stage2/fat16.c: the fields of the boot sector that it reads, where its areas lie, the
-- table of clusters and the search of the partition.
--
-- g_bpb and g_part_offset are arguments. Addresses are 32-bit numbers.
pub mod Layout
use mboot.Prelude.{
  ℕ, zero, suc, ◌+◌, ◌-◌, ◌*◌, ◌^◌, ◌%◌, Bool, true, false, ◌||◌, Option, none, some, List, [], ◌∷◌,
  ◌==◌, if◌then◌else◌, get_or, drop,
}
use mboot.Fat16.Disk.{Disk, read_bytes}

-- `BPB_t`, the fields that are read.
pub record Bpb : Type 0 where
  pub byts_per_sec : ℕ
  pub sec_per_clus : ℕ
  pub rsvd_sec_cnt : ℕ
  pub num_fats : ℕ
  pub root_ent_cnt : ℕ
  pub fatsz16 : ℕ

-- Numbers in little-endian order at an offset of a buffer.
abbrev pub byte_at : List ℕ → ℕ → ℕ
byte_at buffer i = get_or buffer i 0

abbrev pub word_at : List ℕ → ℕ → ℕ
word_at buffer i = byte_at buffer i + 2 ^ 8 * byte_at buffer (i + 1)

abbrev pub dword_at : List ℕ → ℕ → ℕ
dword_at buffer i = word_at buffer i + 2 ^ 16 * word_at buffer (i + 2)

-- `memcpy(&g_bpb, sector0, sizeof(BPB_t))` by the offsets of the packed fields.
unfoldable pub bpb_of : List ℕ → Bpb
bpb_of sector0 = record {
  byts_per_sec = word_at sector0 11;
  sec_per_clus = byte_at sector0 13;
  rsvd_sec_cnt = word_at sector0 14;
  num_fats = byte_at sector0 16;
  root_ent_cnt = word_at sector0 17;
  fatsz16 = word_at sector0 22;
}

-- `cluster_size`, computed where it is used.
abbrev pub cluster_size : Bpb → ℕ
cluster_size bpb = bpb.byts_per_sec * bpb.sec_per_clus % 2 ^ 32

unfoldable pub bpb_fat_addr : Bpb → ℕ
bpb_fat_addr bpb = bpb.rsvd_sec_cnt * bpb.byts_per_sec % 2 ^ 32

unfoldable pub bpb_root_addr : Bpb → ℕ
unfolding bpb_fat_addr
bpb_root_addr bpb = (bpb_fat_addr bpb + bpb.num_fats * bpb.fatsz16 * bpb.byts_per_sec) % 2 ^ 32

unfoldable pub bpb_data_addr : Bpb → ℕ
unfolding bpb_root_addr
bpb_data_addr bpb = (bpb_root_addr bpb + bpb.root_ent_cnt * 32) % 2 ^ 32

-- The value read, 0 in the place of the one of a failed read, which a range of two bytes does not have.
abbrev pub read_word : Option (List ℕ) → ℕ
read_word none = 0
read_word (some buffer) = word_at buffer 0

unfoldable pub get_next_cluster : Disk → (part_offset : ℕ) → Bpb → (cluster : ℕ) → ℕ
get_next_cluster disk part_offset bpb cluster =
    read_word (read_bytes disk ((part_offset + bpb_fat_addr bpb + cluster * 2) % 2 ^ 32) 2)

unfoldable pub cluster_offset : (part_offset : ℕ) → Bpb → (cluster : ℕ) → ℕ
cluster_offset part_offset bpb cluster =
    (part_offset + bpb_data_addr bpb + (cluster + 2 ^ 32 - 2) * cluster_size bpb) % 2 ^ 32

abbrev pub is_fat16_type : ℕ → Bool
is_fat16_type kind = (kind == 0x04) || ((kind == 0x06) || (kind == 0x0E))

-- The search in the partitions of fat16_init, from an entry on: the first sector of the first
-- partition that is of a type of FAT16, and 0 when there is none.
unfoldable pub find_partition : (entries : ℕ) → List ℕ → ℕ
find_partition zero entry = 0
find_partition (suc n) entry =
    let rest = find_partition n (drop 16 entry) in
    if is_fat16_type (byte_at entry 4) then dword_at entry 8 else rest
