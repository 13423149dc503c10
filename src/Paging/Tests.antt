-- ===== src/Paging/Tests.antt =====
-- Paging on the identity mapping that paging_init makes: runs of the code, and the theorem.
use mboot.Prelude.{ℕ, ◌+◌, ◌-◌, ◌*◌, ◌/◌, ◌%◌, ◌^◌, ◌<◌, ◌≡◌, refl, arith, true, ==_iff, some}
use mboot.Paging.{paging_init, slot, is_large, paging_map_page}
use mboot.Paging.Mapping.{IsDirectory, translate}
use mboot.Paging.Identity.{paging_init-IsDirectory}
use mboot.Paging.MapPage.{OnePage, paging_map_page-OnePage}

abbrev directory : ℕ
directory = 0x5000

-- PAGE_PRESENT, PAGE_WRITABLE and PAGE_SIZE_4MB are 131.
abbrev identity : ℕ → ℕ
identity a = (a - directory) / 4 * 2 ^ 22 + 131

all_large : (i : ℕ) → is_large (identity (slot directory i)) ≡ true
all_large i = (==_iff (identity (slot directory i) / 2 ^ 7 % 2) 1).1 (omega arith)

identity-IsDirectory : IsDirectory directory identity
identity-IsDirectory = record {
  aligned = refl;
  word = λ i h. omega (arith, h);
  present = λ i h. (==_iff (identity (slot directory i) % 2) 1).1 (omega arith);
  apart = λ i h l. ground (arith, all_large i, l);
  distinct = λ i j h b l n ne. ground (arith, all_large i, l);
}

paging_map_page-OnePage_example :
    OnePage directory 0x403000 0x9000 identity
      (paging_map_page 0x7000 directory 0x403000 0x9000 6 identity)
paging_map_page-OnePage_example =
    paging_map_page-OnePage 0x7000 directory 0x403000 0x9000 6 identity identity-IsDirectory
      (omega arith) (omega arith) refl (omega arith) (omega arith)
      (λ i h l. ground (arith, all_large i, l))

paging_init-IsDirectory_example :
    IsDirectory directory (paging_init directory identity)
    × ((v : ℕ) → v < 2 ^ 32 → translate directory v (paging_init directory identity) ≡ some v)
paging_init-IsDirectory_example = paging_init-IsDirectory directory identity refl
