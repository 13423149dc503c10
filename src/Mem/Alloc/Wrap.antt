-- ===== src/Mem/Alloc/Wrap.antt =====
-- kmalloc on a request that rounds up past 4 GiB.
use mboot.Prelude.{
  ℕ, ◌+◌, ◌-◌, ◌*◌, ◌/◌, ◌%◌, ◌^◌, ◌≤◌, ◌<◌, ◌≡◌, false, List, [], arith, ◌==◌, le→ltb,
}
use mboot.Prelude.Bits.{bit_and_above, bit_and_mask}
use mboot.Mem.{
  Heap, done, set_header, header_size, align_up_uintptr, bump, find_free_block_and_remove, kmalloc,
}
use mboot.Mem.Blocks.{Block}
use mboot.Mem.Layout.{IsHeap, align_up-eight}
use mboot.Mem.Take.{find-Found}

-- The sum wraps to less than 8, and the mask clears it.
align_up-wraps : (x : ℕ) → 2 ^ 32 ≤ x + 7 → x < 2 ^ 32 → align_up_uintptr x 8 ≡ 0
unfolding align_up_uintptr
align_up-wraps x lo hi = omega (
  arith,
  bit_and_above 3 ((x + 7) % 2 ^ 32) (2 ^ 29 - 1),
  bit_and_mask 29 ((x + 7) % 2 ^ 32 / 2 ^ 3),
)

module _ (h : Heap) (room : (h.bump_next + 7) / 8 * 8 + header_size ≤ h.free_ram_end)
    (word : h.free_ram_end < 2 ^ 32) where
  hdr : ℕ
  hdr = (h.bump_next + 7) / 8 * 8

  empty_block : Heap
  empty_block = record (set_header hdr (record { size = 0; free = false; next = 0 }) h) {
    bump_next = hdr + header_size;
  }

  bump-zero : bump 0 h ≡ done (hdr + header_size) empty_block
  unfolding bump hdr empty_block
  bump-zero = rw (
    align_up-eight h.bump_next (omega arith),
    payload,
    top,
    le→ltb h.free_ram_end (hdr + header_size) room,
  )
    where
      payload : ((h.bump_next + 7) / 8 * 8 + header_size) % 2 ^ 32 ≡ hdr + header_size
      payload = omega arith

      top : (hdr + header_size + 0) % 2 ^ 32 ≡ hdr + header_size
      top = omega arith

  empty_size : (empty_block.header hdr).size ≡ 0
  unfolding empty_block
  empty_size = ground arith

-- A request of 2^32 - 7 bytes or more, on a heap with no free block and room for a header, is
-- answered by a pointer that is not NULL, to a block of size 0.
pub kmalloc-wraps :
    (h : Heap) (live : List Block) (bytes : ℕ)
    → IsHeap h [] live
    → h.free_ram_end < 2 ^ 32
    → (h.bump_next + 7) / 8 * 8 + header_size ≤ h.free_ram_end
    → 2 ^ 32 ≤ bytes + 7
    → bytes < 2 ^ 32
    → let hdr = (h.bump_next + 7) / 8 * 8 in
      (g : Heap) × (kmalloc bytes h ≡ done (hdr + header_size) g) × ((g.header hdr).size ≡ 0)
unfolding kmalloc hdr
kmalloc-wraps h live bytes heap word room lo hi = (
  empty_block h room word,
  rw (some_bytes, align_up-wraps bytes lo hi, bump_set, search) (bump-zero h room word),
  empty_size h room word,
)
  where
    some_bytes : (bytes == 0) ≡ false
    some_bytes = ground arith

    bump_set : (h.bump_next == 0) ≡ false
    bump_set = let n = heap.nonnull in let o = heap.ordered in ground arith

    search : find_free_block_and_remove 0 h ≡ done 0 h
    search = find-Found h 0 [] h.free_ram heap.chain (omega (arith, heap.ordered, heap.used))
