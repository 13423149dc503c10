-- ===== src/Mem/Alloc/Kmalloc.antt =====
-- kmalloc: every outcome, from any well-formed heap.
use mathlib.Core.Path.{subst}
use mboot.Prelude.{
  ℕ, ◌+◌, ◌*◌, ◌/◌, ◌^◌, ◌≤◌, ◌<◌, ◌≡◌, refl, sym, ◌∙◌, false, List, [], ◌∷◌, ◌++◌, arith, ◌==◌,
  ◌%◌, if◌then◌else◌,
}
use mboot.Mem.{
  Heap, find_free_block_and_remove, bump, try_split_block, hand_out, header_size, kmalloc, ◌>>=◌,
}
use mboot.Mem.Blocks.{Block, All, before, after, before-append-after, last_or}
use mboot.Mem.Walk.{too_small, Found}
use mboot.Mem.Layout.{IsHeap, align_up-eight, Within-weaken, Within-le}
use mboot.Mem.Take.{find-Found, before-small, after-fits}
use mboot.Mem.Alloc.{Allocated}
use mboot.Mem.Alloc.Reuse.{place, reused}
use mboot.Mem.Alloc.Bump.{bump-Allocated}
use mathlib.Core.List.{append-nil}

module _ (h : Heap) (free live : List Block) (heap : IsHeap h free live) (bytes : ℕ)
    (positive : 0 < bytes) (room : h.free_ram_end + bytes + 64 ≤ 2 ^ 32) where
  want : ℕ
  want = (bytes + 7) / 8 * 8

  word : h.free_ram_end < 2 ^ 32
  word = omega arith

  cut :
      (rest : List Block)
      → after (too_small want) free ≡ rest
      → before (too_small want) free ++ rest ≡ free
  cut rest e =
      subst (λ (l : List Block). before (too_small want) free ++ l ≡ free) e
        (before-append-after (too_small want) free)

  -- The two paths behind the search, by what it found.
  paths :
      (rest : List Block)
      → after (too_small want) free ≡ rest
      → Allocated h free live want (
          Found h (last_or 0 (before (too_small want) free)) rest >>= λ found h1.
          if found == 0
          then bump want h1
          else try_split_block found want h1 >>= λ _ h2.
              hand_out ((found + header_size) % 2 ^ 32) want h2)
  unfolding want
  paths [] e = bump-Allocated h free live heap want (omega arith) (
      subst (All (λ b. b.1 < want)) (sym (append-nil (before (too_small want) free)) ∙ cut [] e)
        (before-small want free))
  paths (c ∷ post) e =
      let pre = before (too_small want) free in
      let fits = after-fits want free c post e in
      let at = sym (cut (c ∷ post) e) in
      let small : want + 28 < 2 ^ 32 = omega arith in
      let c_at = place h free live heap word want c pre post at fits small in
      let nonzero : (c.0 == 0) ≡ false = let n = heap.nonnull in let k = c_at.0 in ground arith in
      rw nonzero (reused h free live heap word want c pre post at fits small)

  pub kmalloc-Allocated : Allocated h free live ((bytes + 7) / 8 * 8) (kmalloc bytes h)
  unfolding kmalloc want
  kmalloc-Allocated =
      rw (some_bytes, align_up-eight bytes (omega arith), bump_set, search)
        (paths (after (too_small want) free) refl)
    where
      some_bytes : (bytes == 0) ≡ false
      some_bytes = ground arith

      bump_set : (h.bump_next == 0) ≡ false
      bump_set =
          let k = Within-le h.free_ram h.bump_next free heap.ordered in
          let n = heap.nonnull in ground arith

      search :
          find_free_block_and_remove want h
          ≡ Found h (last_or 0 (before (too_small want) free)) (after (too_small want) free)
      search =
          find-Found h want free h.free_ram heap.chain
            (Within-weaken h.free_ram h.bump_next h.free_ram_end free heap.ordered heap.used)
