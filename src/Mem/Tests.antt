-- ===== src/Mem/Tests.antt =====
-- The allocator at concrete heaps: runs of the code, and the theorems where they apply.
use mboot.Prelude.{◌≡◌, refl, inr, true, false, List, [], ◌∷◌, arith, ◌==◌, if◌then◌else◌}
use mboot.Mem.{Heap, done, kmalloc, kfree}
use mboot.Mem.Blocks.{Block}
use mboot.Mem.Layout.{IsHeap}
use mboot.Mem.Alloc.{Allocated}
use mboot.Mem.Alloc.Kmalloc.{kmalloc-Allocated}
use mboot.Mem.Alloc.Wrap.{kmalloc-wraps}
use mboot.Mem.Free.{released}
use mboot.Mem.Free.Kfree.{kfree-Freed, Freed}
use mboot.Mem.E820.{Entry, biggest_index, init_alloc}
use mboot.Mem.E820.Selection.{Selected, init_alloc-IsHeap}

-- A free block of 64 bytes at 0x1000, a live one of 16 behind it.
abbrev two_blocks : Heap
two_blocks = record {
  header = λ p.
      if p == 0x1000
      then record { size = 64; free = true; next = 0 }
      else record { size = 16; free = false; next = 0 };
  byte = λ p. 7;
  free_list_head = 0x1000;
  bump_next = 0x1068;
  free_ram = 0x1000;
  free_ram_end = 0x9000;
}

abbrev free_blocks : List Block
free_blocks = (0x1000, 64) ∷ []

abbrev live_blocks : List Block
live_blocks = (0x104c, 16) ∷ []

two_blocks-IsHeap : IsHeap two_blocks free_blocks live_blocks
two_blocks-IsHeap = record {
  chain = (refl, omega arith, refl, refl, refl);
  ordered = omega arith;
  used = omega arith;
  nonnull = omega arith;
  lives = (
    record {
      size = refl;
      above = omega arith;
      below = omega arith;
      apart = (inr (omega arith), tt);
    },
    tt,
  );
  apart = (tt, tt);
}

kmalloc-Allocated_example : Allocated two_blocks free_blocks live_blocks 16 (kmalloc 10 two_blocks)
kmalloc-Allocated_example =
    kmalloc-Allocated two_blocks free_blocks live_blocks two_blocks-IsHeap 10 (omega arith)
      (omega arith)

kfree-Freed_example :
    (g : Heap) × (kfree 0x1058 two_blocks ≡ done tt g)
    × Freed two_blocks (0x104c, 16) free_blocks [] two_blocks-IsHeap (omega arith) g
kfree-Freed_example =
    kfree-Freed two_blocks (0x104c, 16) free_blocks [] two_blocks-IsHeap (omega arith)

abbrev unused : Heap
unused = record {
  header = λ p. record { size = 0; free = false; next = 0 };
  byte = λ p. 0;
  free_list_head = 0;
  bump_next = 0x1000;
  free_ram = 0x1000;
  free_ram_end = 0x9000;
}

unused-IsHeap : IsHeap unused [] []
unused-IsHeap = record {
  chain = refl;
  ordered = omega arith;
  used = omega arith;
  nonnull = omega arith;
  lives = tt;
  apart = tt;
}

kmalloc-wraps_example :
    (g : Heap) × (kmalloc 0xfffffffe unused ≡ done 0x100c g) × ((g.header 0x1000).size ≡ 0)
kmalloc-wraps_example =
    kmalloc-wraps unused [] 0xfffffffe unused-IsHeap (omega arith) (omega arith) (omega arith)
      (omega arith)

released_joins_both : released (0x104c, 16) ((0x1000, 64) ∷ (0x1068, 8) ∷ []) ≡ (0x1000, 112) ∷ []
unfolding released
released_joins_both = refl

abbrev map_entries : List Entry
map_entries =
    record { base = 0; length = 0x9fc00; kind = 1 }
    ∷ record { base = 0x100000; length = 0x7ee0000; kind = 1 }
    ∷ record { base = 0xfffc0000; length = 0x40000; kind = 2 }
    ∷ []

abbrev behind_map : Entry
behind_map = record { base = 0; length = 0; kind = 0 }

biggest_is_second : biggest_index behind_map map_entries ≡ 1
unfolding biggest_index
biggest_is_second = refl

init_alloc-IsHeap_example :
    let h' = init_alloc behind_map map_entries unused in
    Selected map_entries 1 (record { base = 0x100000; length = 0x7ee0000; kind = 1 })
    × (h'.free_ram ≡ 0x100000)
    × (h'.free_ram_end ≡ 0x7fe0000)
    × IsHeap h' [] []
unfolding biggest_index
init_alloc-IsHeap_example =
    init_alloc-IsHeap behind_map (record { base = 0; length = 0x9fc00; kind = 1 })
      (record { base = 0x100000; length = 0x7ee0000; kind = 1 }
        ∷ record { base = 0xfffc0000; length = 0x40000; kind = 2 }
        ∷ [])
      unused refl (omega arith) (omega arith)
