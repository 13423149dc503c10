-- ===== src/Mem.antt =====
-- The kernel heap of stage2/mem.c: first-fit reuse of freed blocks over a bump pointer.
--
-- A `block_header_t` is a record in the store `header`, indexed by its address; the bytes of the
-- payloads are the store `byte`. The two overlap in the machine's memory, so the model speaks for
-- it as long as no payload covers a header in use: Mem/Alloc and Mem/Free prove that for the
-- blocks that the allocator hands out. Addresses and sizes are 32-bit numbers, NULL is 0.
pub mod Blocks
pub mod Walk
pub mod Insert
pub mod Layout
pub mod Take
pub mod Split
pub mod Alloc
pub mod Free
pub mod E820
mod Tests
use mboot.Prelude.{
  ℕ, zero, suc, ◌+◌, ◌-◌, ◌%◌, ◌^◌, Bool, true, false, not, ◌&&◌, ◌||◌, Option, none, some, ◌==◌,
  ltb, leb, if◌then◌else◌, bit_and,
}

-- `block_header_t`
pub record Header : Type 0 where
  pub size : ℕ
  pub free : Bool
  pub next : ℕ

-- sizeof(block_header_t) on i386: a 4-byte size, a bool padded to 4, a 4-byte pointer.
abbrev pub header_size : ℕ
header_size = 12

-- The globals of mem.c with the memory that they govern.
pub record Heap : Type 0 where
  pub header : ℕ → Header
  pub byte : ℕ → ℕ
  pub free_list_head : ℕ
  pub bump_next : ℕ
  pub free_ram : ℕ
  pub free_ram_end : ℕ

-- `halted` is the HALT of an exhausted heap.
pub data Run (A : Type 0) : Type 0 where
  done : A → Heap → Run A
  halted : Run A
  out_of_fuel : Run A

infixl 5 ◌>>=◌
abbrev pub ◌>>=◌ : {A B : Type 0} → Run A → (A → Heap → Run B) → Run B
done a h >>= f = f a h
halted >>= f = halted
out_of_fuel >>= f = out_of_fuel

pub align_up_uintptr : ℕ → ℕ → ℕ
align_up_uintptr x align = bit_and ((x + (align - 1)) % 2 ^ 32) (2 ^ 32 - 1 - (align - 1))

abbrev pub write {ℓ} : {A : Type ℓ} → (ℕ → A) → ℕ → A → ℕ → A
write f a v p = if p == a then v else f p

pub memset : ℕ → ℕ → ℕ → (ℕ → ℕ) → ℕ → ℕ
memset p c zero f = f
memset p c (suc n) f = memset ((p + 1) % 2 ^ 32) c n (write f p c)

abbrev pub set_header : ℕ → Header → Heap → Heap
set_header a hd h = record h { header = write h.header a hd }

abbrev pub set_next : ℕ → ℕ → Heap → Heap
set_next a v h = set_header a (record (h.header a) { next = v }) h

-- `if (prev) prev->next = v; else free_list_head = v;`
pub set_link : ℕ → ℕ → Heap → Heap
set_link prev v h = if prev == 0 then record h { free_list_head = v } else set_next prev v h

-- The rounds that a walk of the free list is given: distinct blocks lie below `free_ram_end`.
abbrev pub rounds : Heap → ℕ
rounds h = suc h.free_ram_end

-- The body of find_free_block_and_remove at the block that fits.
pub take_block : ℕ → ℕ → Heap → Heap
unfolding set_link
take_block prev cur h =
    let h' = set_link prev (h.header cur).next h in
    set_header cur (record (h'.header cur) { free = false; next = 0 }) h'

pub find_loop : ℕ → ℕ → ℕ → ℕ → Heap → Run ℕ
unfolding take_block
find_loop zero size prev cur h = out_of_fuel
find_loop (suc k) size prev cur h =
    let rest = find_loop k size cur (h.header cur).next h in
    if cur == 0
    then done 0 h
    else if (h.header cur).free && leb size (h.header cur).size
    then done cur (take_block prev cur h)
    else rest

pub find_free_block_and_remove : ℕ → Heap → Run ℕ
unfolding find_loop
find_free_block_and_remove size h = find_loop (rounds h) size 0 h.free_list_head h

-- `while (cur && cur < bound) { prev = cur; cur = cur->next; }`, the walk to an address.
pub locate : ℕ → ℕ → ℕ → ℕ → Heap → Option (ℕ × ℕ)
locate zero bound prev cur h = none
locate (suc k) bound prev cur h =
    let rest = locate k bound cur (h.header cur).next h in
    if not (cur == 0) && ltb cur bound then rest else some (prev, cur)

-- `block->next = cur;` and the link from `prev`, or from the head, to the block.
pub insert_between : ℕ → ℕ × ℕ → Heap → Heap
unfolding set_link
insert_between block (prev, cur) h = set_link prev block (set_next block cur h)

pub insert_sorted : ℕ → Heap → Run ℕ
unfolding locate insert_between
insert_sorted block h = elim (locate (rounds h) block 0 h.free_list_head h) [
  | none ↦ out_of_fuel
  | some at ↦ done at.0 (insert_between block at h)
]

pub try_split_block : ℕ → ℕ → Heap → Run ℕ
unfolding insert_sorted
try_split_block block want_size h =
    if leb (h.header block).size ((want_size + header_size + 16) % 2 ^ 32)
    then done 0 h
    else let new_hdr = (block + header_size + want_size) % 2 ^ 32 in
      let rest = ((h.header block).size + 2 ^ 32 + 2 ^ 32 - want_size - header_size) % 2 ^ 32 in
      let h1 = set_header new_hdr (record { size = rest; free = true; next = 0 }) h in
      insert_sorted new_hdr (set_header block (record (h1.header block) { size = want_size }) h1)

-- The payload of a block, zeroed.
pub hand_out : ℕ → ℕ → Heap → Run ℕ
unfolding memset
hand_out payload want_size h = done payload (record h { byte = memset payload 0 want_size h.byte })

pub bump : ℕ → Heap → Run ℕ
unfolding align_up_uintptr hand_out
bump want_size h =
    let hdr_addr = align_up_uintptr h.bump_next 8 in
    let payload_addr = (hdr_addr + header_size) % 2 ^ 32 in
    let new_bump = (payload_addr + want_size) % 2 ^ 32 in
    if ltb h.free_ram_end new_bump
    then halted
    else hand_out payload_addr want_size
        (record (set_header hdr_addr (record { size = want_size; free = false; next = 0 }) h) {
          bump_next = new_bump;
        })

pub kmalloc : ℕ → Heap → Run ℕ
unfolding align_up_uintptr find_free_block_and_remove try_split_block hand_out bump
kmalloc bytes h =
    if bytes == 0
    then done 0 h
    else let want_size = align_up_uintptr bytes 8 in
      let h0 = if h.bump_next == 0 then record h { bump_next = h.free_ram } else h in
      find_free_block_and_remove want_size h0 >>= λ found h1.
      if found == 0
      then bump want_size h1
      else try_split_block found want_size h1 >>= λ _ h2.
          hand_out ((found + header_size) % 2 ^ 32) want_size h2

-- The second result says whether the blocks were joined.
pub try_coalesce_adjacent : ℕ → ℕ → Heap → Heap × Bool
try_coalesce_adjacent a b h =
    if (a + header_size + (h.header a).size) % 2 ^ 32 == b
    then (
      set_header a
          (record {
            size = ((h.header a).size + header_size + (h.header b).size) % 2 ^ 32;
            free = (h.header a).free;
            next = (h.header b).next;
          })
          h,
      true,
    )
    else (h, false)

-- The end of kfree: joining the block with its successor on the list.
pub coalesce_next : ℕ → Heap → Heap
unfolding try_coalesce_adjacent
coalesce_next block h =
    if (h.header block).next == 0
    then h
    else (try_coalesce_adjacent block (h.header block).next h).0

-- The scan for the predecessor, run only if the block is not the first, and both joins.
pub coalesce : ℕ → ℕ → Heap → Run (Unit {0})
unfolding locate try_coalesce_adjacent coalesce_next
coalesce prev block h =
    if prev == 0
    then done tt (coalesce_next block h)
    else elim (locate (rounds h) block 0 h.free_list_head h) [
      | none ↦ out_of_fuel
      | some (scan_prev, _) ↦
          if scan_prev == 0
          then done tt (coalesce_next block h)
          else let (h', joined) = try_coalesce_adjacent scan_prev block h in
            done tt (coalesce_next (if joined then scan_prev else block) h')
    ]

-- kfree behind its test for NULL, on the header's address.
pub free_block : ℕ → Heap → Run (Unit {0})
free_block block h =
    if ltb block h.free_ram || leb h.free_ram_end block
    then done tt h
    else insert_sorted block
        (set_header block (record { size = (h.header block).size; free = true; next = 0 }) h)
      >>= λ prev h'. coalesce prev block h'

pub kfree : ℕ → Heap → Run (Unit {0})
kfree loc h = if loc == 0 then done tt h else free_block ((loc + 2 ^ 32 - header_size) % 2 ^ 32) h
