-- ===== src/Fat16/Mount/Partition.antt =====
-- What fat16_init finds on a disk.
use mathlib.Core.Path.{subst}
use mboot.Prelude.{
  ℕ, zero, suc, ◌+◌, ◌-◌, ◌*◌, ◌%◌, ◌^◌, ◌≤◌, ◌<◌, ◌≡◌, refl, ap, ◌∙◌, sym, Bool, true, false, [],
  ◌==◌, if◌then◌else◌, if-All, arith, drop, replicate, ◌⊎◌, inl, inr, append-nil, ◌↔◌, Bool-cases,
  ltb,
}
use mboot.Fat16.Disk.{Disk, bytes_at, read_bytes}
use mboot.Fat16.Disk.Slice.{drop-bytes_at, read_bytes-bytes_at}
use mboot.Fat16.Volume.{Bpb, bpb_of, find_partition, is_fat16_type, byte_at, word_at, dword_at}
use mboot.Fat16.Files.{Fat16, zeroed_file}
use mboot.Fat16.Mount.{with_mbr, with_partition, with_sector0, fat16_init}

-- Little-endian numbers of the disk.
abbrev pub disk_word : Disk → ℕ → ℕ
disk_word disk a = disk a + 2 ^ 8 * disk (a + 1)

abbrev pub disk_dword : Disk → ℕ → ℕ
disk_dword disk a = disk_word disk a + 2 ^ 16 * disk_word disk (a + 2)

-- The types of partitions with FAT16.
abbrev pub IsFat16Type : ℕ → Type 0
IsFat16Type kind = (kind ≡ 0x04) ⊎ ((kind ≡ 0x06) ⊎ (kind ≡ 0x0E))

-- The first sector of the first partition with FAT16 among the entries from an address on, 0 when
-- there is none.
abbrev pub FirstPartition : Disk → (entries address : ℕ) → ℕ → Type 0
FirstPartition disk zero a lba = lba ≡ 0
FirstPartition disk (suc n) a lba =
    (IsFat16Type (disk (a + 4)) × (lba ≡ disk_dword disk (a + 8)))
    ⊎ ((IsFat16Type (disk (a + 4)) → ⊥) × FirstPartition disk n (a + 16) lba)

pub byte-bytes_at : (disk : Disk) (a n i : ℕ) → i < n → byte_at (bytes_at disk a n) i ≡ disk (a + i)
unfolding bytes_at
byte-bytes_at disk a zero i h = elim h [ ]
byte-bytes_at disk a (suc n) zero h = ap disk (omega arith)
byte-bytes_at disk a (suc n) (suc i) h =
    byte-bytes_at disk (a + 1) n i (omega (arith, h)) ∙ ap disk (omega arith)

word-bytes_at :
    (disk : Disk) (a n i : ℕ) → i + 1 < n → word_at (bytes_at disk a n) i ≡ disk_word disk (a + i)
word-bytes_at disk a n i h = omega (
  arith,
  byte-bytes_at disk a n i (omega (arith, h)),
  byte-bytes_at disk a n (i + 1) h,
  ap disk {x = a + (i + 1)} {y = a + i + 1} (omega arith),
)

drop-bytes :
    (disk : Disk) (a m n : ℕ) → m ≤ n → drop m (bytes_at disk a n) ≡ bytes_at disk (a + m) (n - m)
drop-bytes disk a m n h =
    ap (drop m) (sym (append-nil (bytes_at disk a n)))
    ∙ drop-bytes_at disk a m n [] h
    ∙ append-nil (bytes_at disk (a + m) (n - m))

dword-bytes_at :
    (disk : Disk) (a n i : ℕ) → i + 3 < n → dword_at (bytes_at disk a n) i ≡ disk_dword disk (a + i)
dword-bytes_at disk a n i h = omega (
  arith,
  word-bytes_at disk a n i (omega (arith, h)),
  word-bytes_at disk a n (i + 2) (omega (arith, h)),
  ap (disk_word disk) {x = a + (i + 2)} {y = a + i + 2} (omega arith),
)

different : (b : Bool) → b ≡ false → b ≡ true → ⊥
different true e k = cc
different false e k = cc

is_fat16_type_iff : (kind : ℕ) → (is_fat16_type kind ≡ true) ↔ IsFat16Type kind
is_fat16_type_iff kind = (
  λ e. elim (Bool-cases (kind == 0x04)) [
    | inl t ↦ inl (ground (arith, t))
    | inr t ↦ elim (Bool-cases (kind == 0x06)) [
      | inl u ↦ inr (inl (ground (arith, u)))
      | inr u ↦ inr (inr (ground (arith, e, t, u)))
    ]
  ],
  λ k. elim k [
    | inl t ↦ ground (arith, t)
    | inr l ↦ elim l [ inl t ↦ ground (arith, t) | inr t ↦ ground (arith, t) ]
  ],
)

find_partition-first :
    (disk : Disk) (n a m : ℕ)
    → 16 * n ≤ m
    → FirstPartition disk n a (find_partition n (bytes_at disk a m))
unfolding find_partition
find_partition-first disk zero a m h = refl
find_partition-first disk (suc n) a m h =
    let entry = bytes_at disk a m in
    let found : ℕ → Type 0 = λ r.
      (IsFat16Type (disk (a + 4)) × (r ≡ disk_dword disk (a + 8)))
      ⊎ ((IsFat16Type (disk (a + 4)) → ⊥) × FirstPartition disk n (a + 16) r) in
    subst found
      (sym (
        ap
          (λ (k : ℕ).
            if is_fat16_type k then dword_at entry 8 else find_partition n (drop 16 entry))
          (byte-bytes_at disk a m 4 (omega (arith, h)))
        ∙ ap
            (λ (d : ℕ).
              if is_fat16_type (disk (a + 4)) then d else find_partition n (drop 16 entry))
            (dword-bytes_at disk a m 8 (omega (arith, h)))
        ∙ ap
            (λ l.
              if is_fat16_type (disk (a + 4)) then disk_dword disk (a + 8) else find_partition n l)
            (drop-bytes disk a 16 m (omega (arith, h)))))
      (if-All found (is_fat16_type (disk (a + 4)))
        (λ e. inl ((is_fat16_type_iff (disk (a + 4))).0 e, refl))
        (λ e. inr (
          λ t. different (is_fat16_type (disk (a + 4))) e ((is_fat16_type_iff (disk (a + 4))).1 t),
          find_partition-first disk n (a + 16) (m - 16) (omega (arith, h)),
        )))

-- The fields of the boot sector at an address.
abbrev pub boot_sector : Disk → ℕ → Bpb
boot_sector disk a = record {
  byts_per_sec = disk_word disk (a + 11);
  sec_per_clus = disk (a + 13);
  rsvd_sec_cnt = disk_word disk (a + 14);
  num_fats = disk (a + 16);
  root_ent_cnt = disk_word disk (a + 17);
  fatsz16 = disk_word disk (a + 22);
}

bpb_of-boot_sector : (disk : Disk) (a : ℕ) → bpb_of (bytes_at disk a 512) ≡ boot_sector disk a
unfolding bpb_of
bpb_of-boot_sector disk a =
    ap (λ (w : ℕ). fields w (b 13) (l 14) (b 16) (l 17) (l 22))
      (word-bytes_at disk a 512 11 (omega arith))
    ∙ ap (λ (w : ℕ). fields (d 11) w (l 14) (b 16) (l 17) (l 22))
        (byte-bytes_at disk a 512 13 (omega arith))
    ∙ ap (λ (w : ℕ). fields (d 11) (disk (a + 13)) w (b 16) (l 17) (l 22))
        (word-bytes_at disk a 512 14 (omega arith))
    ∙ ap (λ (w : ℕ). fields (d 11) (disk (a + 13)) (d 14) w (l 17) (l 22))
        (byte-bytes_at disk a 512 16 (omega arith))
    ∙ ap (λ (w : ℕ). fields (d 11) (disk (a + 13)) (d 14) (disk (a + 16)) w (l 22))
        (word-bytes_at disk a 512 17 (omega arith))
    ∙ ap (fields (d 11) (disk (a + 13)) (d 14) (disk (a + 16)) (d 17))
        (word-bytes_at disk a 512 22 (omega arith))
  where
    b : ℕ → ℕ
    b i = byte_at (bytes_at disk a 512) i

    l : ℕ → ℕ
    l i = word_at (bytes_at disk a 512) i

    d : ℕ → ℕ
    d i = disk_word disk (a + i)

    fields : ℕ → ℕ → ℕ → ℕ → ℕ → ℕ → Bpb
    fields f g h i j k = record {
      byts_per_sec = f;
      sec_per_clus = g;
      rsvd_sec_cnt = h;
      num_fats = i;
      root_ent_cnt = j;
      fatsz16 = k;
    }

abbrev pub no_files : Fat16 → Fat16
no_files st = record st { open_files = replicate 8 zeroed_file }

read_mbr :
    (disk : Disk) (st : Fat16)
    → fat16_init disk st
      ≡ with_partition disk (no_files st) (find_partition 4 (bytes_at disk 446 66))
unfolding fat16_init
read_mbr disk st =
    ap (with_mbr disk (no_files st))
      (read_bytes-bytes_at disk 0 512 (omega arith) (omega arith) (omega arith))
    ∙ ap (λ l. with_partition disk (no_files st) (find_partition 4 l))
        (drop-bytes disk 0 446 512 (omega arith))

mounted :
    (disk : Disk) (st : Fat16) (lba : ℕ)
    → 0 < lba
    → lba < 2 ^ 23
    → with_partition disk st lba
      ≡ (record st { bpb = boot_sector disk (512 * lba); part_offset = 512 * lba }, true)
mounted disk st lba h k =
    ap
      (λ b.
        if b
        then (st, false)
        else with_sector0 (record st { part_offset = lba * 512 % 2 ^ 32 })
            (read_bytes disk (lba * 512 % 2 ^ 32) 512))
      {x = lba == 0} {y = false} (ground (arith, h))
    ∙ ap (λ (p : ℕ). with_sector0 (record st { part_offset = p }) (read_bytes disk p 512))
        {y = 512 * lba} (omega (arith, k))
    ∙ ap (with_sector0 (record st { part_offset = 512 * lba })) (
        read_bytes-bytes_at disk (512 * lba) 512 (omega arith) (omega (arith, k))
          (omega (arith, k)))
    ∙ ap (λ b. (record st { bpb = b; part_offset = 512 * lba }, true))
        (bpb_of-boot_sector disk (512 * lba))

-- fat16_init closes all files and takes the first partition with FAT16 among the four entries of
-- the first sector. It registers no driver when there is none, or it begins at sector 0. Else, if
-- it does not begin at sector 2 ^ 23 or above, the driver is registered on it with the fields of
-- its boot sector.
pub fat16_init-FirstPartition :
    (disk : Disk) (st : Fat16)
    → (lba : ℕ) × FirstPartition disk 4 446 lba
      × (((lba ≡ 0) × (fat16_init disk st ≡ (no_files st, false)))
          ⊎ (((0 < lba)
                × (lba < 2 ^ 23)
                × (fat16_init disk st ≡ (
                  record (no_files st) {
                    bpb = boot_sector disk (512 * lba);
                    part_offset = 512 * lba;
                  },
                  true,
                )))
              ⊎ (2 ^ 23 ≤ lba)))
fat16_init-FirstPartition disk st = (lba, find_partition-first disk 4 446 66 (omega arith), outcome)
  where
    lba : ℕ
    lba = find_partition 4 (bytes_at disk 446 66)

    outcome :
        ((lba ≡ 0) × (fat16_init disk st ≡ (no_files st, false)))
        ⊎ (((0 < lba)
              × (lba < 2 ^ 23)
              × (fat16_init disk st ≡ (
                record (no_files st) {
                  bpb = boot_sector disk (512 * lba);
                  part_offset = 512 * lba;
                },
                true,
              )))
            ⊎ (2 ^ 23 ≤ lba))
    outcome = elim (Bool-cases (lba == 0)) [
      | inl e ↦
          let none_found : lba ≡ 0 = ground (arith, e) in
          inl (none_found, read_mbr disk st ∙ ap (with_partition disk (no_files st)) none_found)
      | inr e ↦ elim (Bool-cases (ltb lba (2 ^ 23))) [
        | inl k ↦
            let some_found : 0 < lba = ground (arith, e) in
            let low : lba < 2 ^ 23 = ground (arith, k) in
            inr (
              inl
                (some_found, low, read_mbr disk st ∙ mounted disk (no_files st) lba some_found low))
        | inr k ↦ inr (inr (ground (arith, k)))
      ]
    ]
