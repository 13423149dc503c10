-- ===== src/Paging.antt =====
-- The page directories of stage2/paging.c.
--
-- The memory that holds directories and tables is a function from the address of a 32-bit word to
-- its value. The page that alloc_aligned_page gives enters as an argument. Shifts and masks of whole
-- fields are quotients, products and remainders by powers of 2.
pub mod Words
pub mod Mapping
pub mod Split
pub mod MapPage
pub mod Identity
mod Tests
use mboot.Prelude.{
  ℕ, zero, suc, ◌+◌, ◌*◌, ◌/◌, ◌%◌, ◌^◌, Bool, true, false, Option, none, some, ◌==◌, if◌then◌else◌,
  bit_or, not, ◌||◌, ltb,
}

abbrev pub page_present : ℕ
page_present = 1

abbrev pub page_writable : ℕ
page_writable = 2

abbrev pub page_size_4mb : ℕ
page_size_4mb = 0x80

-- `entry & PAGE_PRESENT`, `entry & PAGE_SIZE_4MB`
abbrev pub is_present : ℕ → Bool
is_present entry = entry % 2 == 1

abbrev pub is_large : ℕ → Bool
is_large entry = entry / 2 ^ 7 % 2 == 1

-- `x & 0xFFFFF000`, `x & 0xFFC00000`
abbrev pub frame : ℕ → ℕ
frame x = x / 2 ^ 12 * 2 ^ 12

abbrev pub large_frame : ℕ → ℕ
large_frame x = x / 2 ^ 22 * 2 ^ 22

-- the address of a directory's or a table's entry
abbrev pub slot : ℕ → ℕ → ℕ
slot page index = page + 4 * index

abbrev pub store : ℕ → ℕ → (ℕ → ℕ) → ℕ → ℕ
store at v m a = if a == at then v else m a

-- `i * FOUR_MIB | PAGE_PRESENT | PAGE_WRITABLE | PAGE_SIZE_4MB`
abbrev pub identity_entry : ℕ → ℕ
identity_entry i =
    bit_or (large_frame (i * 2 ^ 22 % 2 ^ 32)) (page_present + page_writable + page_size_4mb)

-- The directory that paging_init fills: its first `n` entries.
unfoldable pub identity_directory : (pd n : ℕ) → (ℕ → ℕ) → ℕ → ℕ
identity_directory pd zero m = m
identity_directory pd (suc n) m = store (slot pd n) (identity_entry n) (identity_directory pd n m)

-- paging_init; `pd` is the page that alloc_aligned_page would give.
unfoldable pub paging_init : ℕ → (ℕ → ℕ) → ℕ → ℕ
paging_init pd m = identity_directory pd 1024 m

abbrev pub small_entry : ℕ → ℕ → ℕ
small_entry phys_base i = bit_or ((phys_base + i * 2 ^ 12) % 2 ^ 32) (page_present + page_writable)

-- The first `n` entries of a table that maps what a large page mapped.
unfoldable pub fill_table : (table phys_base n : ℕ) → (ℕ → ℕ) → ℕ → ℕ
fill_table table phys_base zero m = m
fill_table table phys_base (suc n) m =
    store (slot table n) (small_entry phys_base n) (fill_table table phys_base n m)

-- The split of a large page; `table` is the page that alloc_aligned_page gives.
unfoldable pub split_large : (table pd dir_idx : ℕ) → (ℕ → ℕ) → ℕ → ℕ
split_large table pd dir_idx m =
    store (slot pd dir_idx) (bit_or (frame table) (page_present + page_writable))
      (fill_table table (large_frame (m (slot pd dir_idx))) 1024 m)

unfoldable pub paging_map_page : (table pd vaddr paddr flags : ℕ) → (ℕ → ℕ) → ℕ → ℕ
paging_map_page table pd vaddr paddr flags m =
    let dir_idx = vaddr / 2 ^ 22 in
    let table_idx = vaddr / 2 ^ 12 % 2 ^ 10 in
    let m' = if is_large (m (slot pd dir_idx)) then split_large table pd dir_idx m else m in
    store (slot (frame (m' (slot pd dir_idx))) table_idx)
      (bit_or (frame paddr) (bit_or flags page_present)) m'
