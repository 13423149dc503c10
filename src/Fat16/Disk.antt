-- ===== src/Fat16/Disk.antt =====
-- read_bytes of stage2/fat16.c and ata_lba_read of stage2/dev/disk.c.
--
-- The disk is a function from the address of a byte to the byte. The drive answers every command: its
-- errors and its timeouts, which the API does not report, are left out. A buffer is the list of its
-- bytes. kmalloc gives a zeroed one, and none for a size of 0: the heap has room.
pub mod Slice
use mboot.Prelude.{
  ℕ, zero, suc, ◌+◌, ◌-◌, ◌*◌, ◌/◌, ◌%◌, ◌^◌, Option, none, some, List, [], ◌∷◌, ◌++◌, ◌==◌,
  if◌then◌else◌, take, drop, replicate,
}

abbrev pub Disk : Type 0
Disk = ℕ → ℕ

abbrev pub sector_size : ℕ
sector_size = 512

-- The bytes of the disk from an address on.
unfoldable pub bytes_at : Disk → ℕ → ℕ → List ℕ
bytes_at disk a zero = []
bytes_at disk a (suc n) = disk a ∷ bytes_at disk (a + 1) n

unfoldable pub buffer_of : ℕ → Option (List ℕ)
buffer_of size = if size == 0 then none else some (replicate size 0)

-- The count is passed as eight bits, the block address as 28. The sectors read stand at the front of
-- the buffer.
unfoldable pub ata_lba_read : Disk → (lba sector_count : ℕ) → List ℕ → List ℕ
ata_lba_read disk lba sector_count buffer =
    let size = sector_size * (sector_count % 2 ^ 8) in
    bytes_at disk (sector_size * (lba % 2 ^ 28)) size ++ drop size buffer

-- The number of sectors that a range of bytes touches.
unfoldable pub sectors_of : (part_offset len : ℕ) → ℕ
sectors_of part_offset len =
    let end_lba = (part_offset + len + 2 ^ 32 - 1) % 2 ^ 32 / sector_size in
    (end_lba + 2 ^ 32 - part_offset / sector_size + 1) % 2 ^ 32

abbrev pub slice_of : Disk → (part_offset len : ℕ) → Option (List ℕ) → Option (List ℕ)
slice_of disk part_offset len none = none
slice_of disk part_offset len (some tmp) =
    let sectors = ata_lba_read disk (part_offset / sector_size) (sectors_of part_offset len) tmp in
    some (take len (drop (part_offset % sector_size) sectors))

-- The bytes that are copied to the caller's buffer, `none` for the result false.
unfoldable pub read_bytes : Disk → (part_offset len : ℕ) → Option (List ℕ)
read_bytes disk part_offset len =
    slice_of disk part_offset len (buffer_of (sectors_of part_offset len * sector_size % 2 ^ 32))
