-- ===== src/Fat16/Tests.antt =====
-- A small disk: its first partition begins at sector 1, has clusters of 4 bytes, and holds the file
-- A.TXT, of 6 bytes in the clusters 2 and 3, behind a deleted entry of the root directory.
use mathlib.Core.List.{nil≢cons}
use mboot.Prelude.{
  ◌≤◌, ◌⊎◌, ℕ, zero, suc, ◌-◌, ◌*◌, ◌^◌, ◌<◌, ◌≡◌, refl, sym, true, false, Option, some, List, [],
  ◌∷◌, ◌++◌, ◌==◌, if◌then◌else◌, if-All, arith, take, drop, length, get_or, replicate, All, ℤ, pos,
}
use mboot.Fat16.Disk.{Disk, bytes_at, buffer_of, sectors_of, ata_lba_read, read_bytes}
use mboot.Fat16.Volume.{Bpb, bpb_root_addr}
use mboot.Fat16.Volume.Layout.{IsVolume}
use mboot.Fat16.Files.{Fat16, zeroed_file, to_int, fat16_read}
use mboot.Fat16.Files.Reading.{IsFile, file_bytes, advanced, fat16_read-file_bytes}
use mboot.Fat16.Files.Sequence.{read_each, read_each-file_bytes}
use mboot.Fat16.Names.{Dir, dir_of, strcasecmp, get_file_name}
use mboot.Fat16.Mount.{fat16_init}
use mboot.Fat16.Mount.Partition.{FirstPartition, no_files, boot_sector, fat16_init-FirstPartition}
use mboot.Vfs.{normalize_path}
use mboot.Fat16.Directory.{scan, free_file, fat16_open}
use mboot.Fat16.Directory.Entries.{ShortEntry, short_bytes}
use mboot.Fat16.Directory.Search.{Item, short, deleted, FirstMatch}
use mboot.Fat16.Directory.Opening.{IsRoot, FreeFrom, Opening, fat16_open-Opening}

abbrev a_txt : ShortEntry
a_txt = record {
  first = 65;
  more = [];
  ext = 84 ∷ 88 ∷ 84 ∷ [];
  attr = 0x20;
  times = replicate 14 0;
  cluster = 2;
  size = 6;
}

abbrev items : List Item
items = deleted (replicate 31 0) ∷ short a_txt ∷ []

abbrev boot : List ℕ
boot = replicate 11 0 ++ (4 ∷ 0 ∷ 1 ∷ 8 ∷ 0 ∷ 1 ∷ 2 ∷ 0 ∷ 0 ∷ 0 ∷ 0 ∷ 3 ∷ 0 ∷ []) ++ replicate 8 0

abbrev table : List ℕ
table = 0xF8 ∷ 0xFF ∷ 0xFF ∷ 0xFF ∷ 3 ∷ 0 ∷ 0xFF ∷ 0xFF ∷ 0 ∷ 0 ∷ 0 ∷ 0 ∷ []

abbrev root : List ℕ
root = (0xE5 ∷ replicate 31 0) ++ short_bytes a_txt

abbrev content : List ℕ
content = 104 ∷ 101 ∷ 108 ∷ 108 ∷ 111 ∷ 33 ∷ 0 ∷ 0 ∷ []

abbrev image : List ℕ
image = boot ++ (table ++ (root ++ content))

-- The type and the first sector of the partition, and the partition.
disk : Disk
disk a = if a == 450 then 6 else if a == 454 then 1 else get_or image (a - 512) 0

get_or-small : (l : List ℕ) (i : ℕ) → All (λ c. c < 256) l → get_or l i 0 < 256
get_or-small [] i h = omega arith
get_or-small (x ∷ l) zero h = h.0
get_or-small (x ∷ l) (suc i) h = get_or-small l i h.1

disk-small : (a : ℕ) → disk a < 256
unfolding disk
disk-small a =
    if-All (λ c. c < 256) (a == 450) (λ e. omega arith)
      (λ e.
        if-All (λ c. c < 256) (a == 454) (λ k. omega arith)
          (λ k. get_or-small image (a - 512) (omega arith)))

abbrev bpb : Bpb
bpb = record {
  byts_per_sec = 4;
  sec_per_clus = 1;
  rsvd_sec_cnt = 8;
  num_fats = 1;
  root_ent_cnt = 2;
  fatsz16 = 3;
}

abbrev closed_files : Fat16
closed_files = record { bpb = bpb; part_offset = 512; open_files = replicate 8 zeroed_file }

abbrev opened_files : Fat16
opened_files = record {
  bpb = bpb;
  part_offset = 512;
  open_files =
      record {
        path = 97 ∷ 46 ∷ 116 ∷ 120 ∷ 116 ∷ [];
        start_cluster = 2;
        size = 6;
        offset = 0;
        used = true;
        refs = 1;
      }
      ∷ replicate 7 zeroed_file;
}

volume : IsVolume disk 512 bpb
volume = record {
  bytes = disk-small;
  nonempty = omega arith;
  small = omega arith;
  table = omega arith;
  clusters = omega arith;
}

file : IsFile disk opened_files 0 5
unfolding disk bytes_at
file = record {
  place = omega arith;
  table = refl;
  used = refl;
  volume = volume;
  clusters = omega arith;
  backed = omega arith;
  sized = omega arith;
}

fat16_read-file_bytes_example :
    fat16_read disk (pos 0) 5 opened_files
    ≡ some (
      to_int (length (take 5 (drop 0 (file_bytes disk opened_files 0 5)))),
      take 5 (drop 0 (file_bytes disk opened_files 0 5)),
      advanced opened_files 0 (length (take 5 (drop 0 (file_bytes disk opened_files 0 5)))),
    )
fat16_read-file_bytes_example = fat16_read-file_bytes disk opened_files 0 5 5 file

hello : file_bytes disk opened_files 0 5 ≡ 104 ∷ 101 ∷ 108 ∷ 108 ∷ 111 ∷ 33 ∷ []
unfolding disk bytes_at
hello = refl

read_each-file_bytes_example :
    read_each disk (pos 0) (4 ∷ 1 ∷ 9 ∷ []) opened_files
    ≡ some (
      take 14 (drop 0 (file_bytes disk opened_files 0 5)),
      advanced opened_files 0 (length (take 14 (drop 0 (file_bytes disk opened_files 0 5)))),
    )
read_each-file_bytes_example = read_each-file_bytes disk opened_files 0 5 (4 ∷ 1 ∷ 9 ∷ []) file

root_lem : IsRoot disk closed_files items []
unfolding disk bytes_at
root_lem = record {
  volume = volume;
  some_entries = omega arith;
  few_entries = omega arith;
  root = refl;
  items_valid = (
    refl,
    (
      record {
        base = omega arith;
        kept = omega arith;
        short = omega arith;
        ext = omega arith;
        ext_short = omega arith;
        attr = omega arith;
        times = refl;
      },
      tt,
    ),
  );
  ended = refl;
}

fat16_init-FirstPartition_example :
    (lba : ℕ) × FirstPartition disk 4 446 lba
    × (((lba ≡ 0) × (fat16_init disk opened_files ≡ (no_files opened_files, false)))
        ⊎ (((0 < lba)
              × (lba < 2 ^ 23)
              × (fat16_init disk opened_files ≡ (
                record (no_files opened_files) {
                  bpb = boot_sector disk (512 * lba);
                  part_offset = 512 * lba;
                },
                true,
              )))
            ⊎ (2 ^ 23 ≤ lba)))
fat16_init-FirstPartition_example = fat16_init-FirstPartition disk opened_files

-- The path /a.txt.
abbrev path : List ℕ
path = 47 ∷ 97 ∷ 46 ∷ 116 ∷ 120 ∷ 116 ∷ []

fat16_open-Opening_example :
    (found : Option Dir) × (place : Option ℕ) × (out : ℤ × Fat16) × (fat16_open disk path
        closed_files
      ≡ some out)
    × FirstMatch (normalize_path path) items found
    × FreeFrom 0 closed_files.open_files place
    × Opening (normalize_path path) closed_files found place out
unfolding normalize_path
fat16_open-Opening_example =
    fat16_open-Opening disk closed_files items [] path root_lem (λ e. absurd (nil≢cons (sym e)))
      (omega arith)

open_a_txt : fat16_open disk path closed_files ≡ some (pos 0, opened_files)
unfolding fat16_open buffer_of read_bytes sectors_of bpb_root_addr scan ata_lba_read bytes_at disk
    dir_of strcasecmp get_file_name normalize_path free_file
open_a_txt = refl
