-- ===== src/Fat16/Volume/Layout.antt =====
-- A volume whose areas lie below 2 ^ 32: where its clusters stand and what its table says.
use native.Mathlib.Nat.{add-mul, suc-mul, mul-le-mul_right}
use mboot.Prelude.{ℕ, suc, ◌+◌, ◌-◌, ◌*◌, ◌%◌, ◌^◌, ◌≤◌, ◌<◌, ◌≡◌, ap, ◌∙◌, some, List, arith}
use mboot.Fat16.Disk.{Disk, bytes_at, read_bytes}
use mboot.Fat16.Disk.Slice.{read_bytes-bytes_at}
use mboot.Fat16.Volume.{
  Bpb, cluster_size, bpb_fat_addr, bpb_root_addr, bpb_data_addr, read_word, get_next_cluster,
  cluster_offset,
}

-- The layout of a volume in plain numbers: the reserved sectors, the tables, the root directory and
-- the data, whose first cluster has the number 2.
abbrev pub fat_start : Bpb → ℕ
fat_start bpb = bpb.rsvd_sec_cnt * bpb.byts_per_sec

abbrev pub root_start : Bpb → ℕ
root_start bpb = fat_start bpb + bpb.num_fats * bpb.fatsz16 * bpb.byts_per_sec

abbrev pub data_start : Bpb → ℕ
data_start bpb = root_start bpb + bpb.root_ent_cnt * 32

abbrev pub plain_size : Bpb → ℕ
plain_size bpb = bpb.byts_per_sec * bpb.sec_per_clus

-- The addresses of a volume do not wrap, and a cluster has at most 64 KiB.
pub record IsVolume (disk : Disk) (part_offset : ℕ) (bpb : Bpb) : Type 0 where
  pub bytes : (a : ℕ) → disk a < 256
  pub nonempty : 0 < plain_size bpb
  pub small : plain_size bpb ≤ 2 ^ 16
  pub table : part_offset + fat_start bpb + 2 ^ 17 ≤ 2 ^ 32
  pub clusters : part_offset + data_start bpb + 2 ^ 16 * plain_size bpb ≤ 2 ^ 32

-- The entry of a cluster in the first table.
abbrev pub entry_of : Disk → ℕ → Bpb → ℕ → ℕ
entry_of disk part_offset bpb cluster =
    let a = part_offset + fat_start bpb + 2 * cluster in disk a + 2 ^ 8 * disk (a + 1)

-- The bytes of a cluster.
abbrev pub cluster_bytes : Disk → ℕ → Bpb → ℕ → List ℕ
cluster_bytes disk part_offset bpb cluster =
    bytes_at disk (part_offset + data_start bpb + (cluster - 2) * plain_size bpb) (plain_size bpb)

-- The C code subtracts 2 from a cluster's number in 32 bits.
wrapped-offset :
    (p cluster size : ℕ)
    → 2 ≤ cluster
    → p + (cluster - 2) * size < 2 ^ 32
    → (p + (cluster + 2 ^ 32 - 2) * size) % 2 ^ 32 ≡ p + (cluster - 2) * size
wrapped-offset p cluster size two h = omega (arith, split)
  where
    split : (cluster + 2 ^ 32 - 2) * size ≡ (cluster - 2) * size + 2 ^ 32 * size
    split =
        ap (λ (t : ℕ). t * size) {y = cluster - 2 + 2 ^ 32} (omega arith)
        ∙ add-mul (cluster - 2) (2 ^ 32) size

module _ {disk : Disk} {part_offset : ℕ} {bpb : Bpb} (v : IsVolume disk part_offset bpb) where
  pub size-plain : cluster_size bpb ≡ plain_size bpb
  size-plain = omega (arith, v.small)

  fat-plain : bpb_fat_addr bpb ≡ fat_start bpb
  unfolding bpb_fat_addr
  fat-plain = omega (arith, v.table)

  pub root-plain : bpb_root_addr bpb ≡ root_start bpb
  unfolding bpb_root_addr bpb_fat_addr
  root-plain = omega (arith, v.clusters)

  data-plain : bpb_data_addr bpb ≡ data_start bpb
  unfolding bpb_data_addr bpb_root_addr bpb_fat_addr
  data-plain = omega (arith, v.clusters)

  pub get_next_cluster-entry :
      (cluster : ℕ)
      → cluster < 2 ^ 16
      → get_next_cluster disk part_offset bpb cluster ≡ entry_of disk part_offset bpb cluster
  unfolding get_next_cluster bytes_at
  get_next_cluster-entry cluster h =
      ap (λ (f : ℕ). read_word (read_bytes disk ((part_offset + f + cluster * 2) % 2 ^ 32) 2))
        fat-plain
      ∙ ap (λ (a : ℕ). read_word (read_bytes disk a 2))
          {y = part_offset + fat_start bpb + 2 * cluster} (omega (arith, v.table))
      ∙ ap read_word (
          read_bytes-bytes_at disk (part_offset + fat_start bpb + 2 * cluster) 2 (omega arith)
            (omega (arith, v.table)) (omega arith))

  -- The address of a cluster.
  start_of : ℕ → ℕ
  start_of cluster = part_offset + data_start bpb + (cluster - 2) * plain_size bpb

  start-below : (cluster : ℕ) → cluster < 2 ^ 16 → start_of cluster + plain_size bpb ≤ 2 ^ 32
  unfolding start_of
  start-below cluster h = omega (
    arith,
    v.clusters,
    v.nonempty,
    mul-le-mul_right {m = suc (cluster - 2)} {n = 2 ^ 16} (plain_size bpb) (omega (arith, h)),
    suc-mul (cluster - 2) (plain_size bpb),
  )

  offset-start :
      (cluster : ℕ)
      → 2 ≤ cluster
      → cluster < 2 ^ 16
      → cluster_offset part_offset bpb cluster ≡ start_of cluster
  unfolding cluster_offset start_of
  offset-start cluster two h =
      ap (λ (a : ℕ). (part_offset + a + (cluster + 2 ^ 32 - 2) * cluster_size bpb) % 2 ^ 32)
        data-plain
      ∙ ap (λ (s : ℕ). (part_offset + data_start bpb + (cluster + 2 ^ 32 - 2) * s) % 2 ^ 32)
          size-plain
      ∙ wrapped-offset (part_offset + data_start bpb) cluster (plain_size bpb) two
          (omega (arith, start-below cluster h, v.nonempty))

  pub read_bytes-cluster :
      (cluster : ℕ)
      → 2 ≤ cluster
      → cluster < 2 ^ 16
      → read_bytes disk (cluster_offset part_offset bpb cluster) (cluster_size bpb)
        ≡ some (cluster_bytes disk part_offset bpb cluster)
  unfolding start_of
  read_bytes-cluster cluster two h =
      ap (λ (a : ℕ). read_bytes disk a (cluster_size bpb)) (offset-start cluster two h)
      ∙ ap (read_bytes disk (start_of cluster)) size-plain
      ∙ read_bytes-bytes_at disk (start_of cluster) (plain_size bpb) v.nonempty
          (start-below cluster h) (omega (arith, v.small, v.nonempty))
