-- ===== src/Fat16/Mount.antt =====
-- fat16_init of stage2/fat16.c: the search of the partition and the boot sector.
--
-- The result says with the state whether the driver was registered.
pub mod Partition
use mboot.Prelude.{
  ℕ, ◌*◌, ◌^◌, ◌%◌, Bool, true, false, Option, none, some, List, ◌==◌, if◌then◌else◌, drop,
  replicate,
}
use mboot.Fat16.Disk.{Disk, sector_size, read_bytes}
use mboot.Fat16.Volume.{bpb_of, find_partition}
use mboot.Fat16.Files.{Fat16, zeroed_file, max_open_files}

-- The end of fat16_init, on the first sector of the partition.
abbrev pub with_sector0 : Fat16 → Option (List ℕ) → Fat16 × Bool
with_sector0 st none = (st, false)
with_sector0 st (some sector0) = (record st { bpb = bpb_of sector0 }, true)

abbrev pub with_partition : Disk → Fat16 → (start_lba : ℕ) → Fat16 × Bool
with_partition disk st start_lba =
    let part_offset = start_lba * sector_size % 2 ^ 32 in
    if start_lba == 0
    then (st, false)
    else with_sector0 (record st { part_offset = part_offset })
        (read_bytes disk part_offset sector_size)

abbrev pub with_mbr : Disk → Fat16 → Option (List ℕ) → Fat16 × Bool
with_mbr disk st none = (st, false)
with_mbr disk st (some mbr) = with_partition disk st (find_partition 4 (drop 446 mbr))

unfoldable pub fat16_init : Disk → Fat16 → Fat16 × Bool
fat16_init disk st =
    with_mbr disk (record st { open_files = replicate max_open_files zeroed_file })
      (read_bytes disk 0 sector_size)
