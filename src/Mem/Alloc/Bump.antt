-- ===== src/Mem/Alloc/Bump.antt =====
-- kmalloc where no free block is large enough.
use mboot.Prelude.{
  ℕ, ◌+◌, ◌*◌, ◌/◌, ◌%◌, ◌^◌, ◌≤◌, ◌<◌, ◌≡◌, refl, ap, ◌∙◌, inr, false, List, ◌∷◌, arith, lt→ltb,
  le→ltb,
}
use native.Mathlib.Decide.{dec_lt}
use mboot.Mem.{Header, Heap, header_size, set_header, bump}
use mboot.Mem.Blocks.{Block, end, All, All-map, Seg-frame}
use mboot.Mem.Layout.{IsLive, IsHeap, align_up-eight, Within-ends, Within-weaken, Within-le}
use mboot.Mem.Alloc.{Allocated, hand_out-Allocation}

module _ (h : Heap) (free live : List Block) (heap : IsHeap h free live) (want : ℕ)
    (room : h.free_ram_end + want + 28 < 2 ^ 32) where
  hdr : ℕ
  hdr = (h.bump_next + 7) / 8 * 8

  hdr_at : h.bump_next ≤ hdr
  unfolding hdr
  hdr_at = omega arith

  bumped : Heap
  bumped = record (set_header hdr (record { size = want; free = false; next = 0 }) h) {
    bump_next = hdr + header_size + want;
  }

  bumped-header : (b : Block) → end b ≤ h.bump_next → bumped.header b.0 ≡ h.header b.0
  unfolding bumped
  bumped-header b le = let k = hdr_at in ground arith

  ends : All (λ b. end b ≤ h.bump_next) free
  ends = Within-ends h.free_ram h.bump_next free heap.ordered

  bumped-IsHeap :
      hdr + header_size + want ≤ h.free_ram_end → IsHeap bumped free ((hdr, want) ∷ live)
  unfolding bumped
  bumped-IsHeap le = record {
    chain =
        Seg-frame h.header bumped.header h.free_list_head 0 free heap.chain
          (All-map {P = λ b. end b ≤ h.bump_next} free bumped-header ends);
    ordered =
        Within-weaken h.free_ram h.bump_next bumped.bump_next free heap.ordered
          (omega (arith, hdr_at));
    used = le;
    nonnull = heap.nonnull;
    lives = (
      record {
        size = ground arith;
        above = omega (arith, hdr_at, Within-le h.free_ram h.bump_next free heap.ordered);
        below = omega arith;
        apart =
            All-map {P = λ b. end b ≤ h.bump_next} free (λ b e. inr (omega (arith, hdr_at))) ends;
      },
      All-map {P = IsLive h free} live
          (λ b l. record {
            size = ap (λ (d : Header). d.size) (bumped-header b l.below) ∙ l.size;
            above = l.above;
            below = omega (arith, hdr_at, l.below);
            apart = l.apart;
          })
          heap.lives,
    );
    apart = (
      All-map {P = IsLive h free} live (λ b l. inr (omega (arith, hdr_at, l.below))) heap.lives,
      heap.apart,
    );
  }

  pub bump-Allocated : All (λ b. b.1 < want) free → Allocated h free live want (bump want h)
  unfolding bump hdr bumped
  bump-Allocated small =
      rw (align_up-eight h.bump_next (omega (arith, heap.used)), payload, top)
        (elim (dec_lt h.free_ram_end (hdr + header_size + want)) [
          | yes full ↦ rw (lt→ltb _ _ full) (small, full)
          | no fits ↦ rw (le→ltb h.free_ram_end (hdr + header_size + want) (omega arith)) (
              hand_out-Allocation h bumped (hdr, want) free free live want
                (bumped-IsHeap (omega arith)) (omega arith) (omega arith) (refl, refl, refl))
        ])
    where
      payload : ((h.bump_next + 7) / 8 * 8 + header_size) % 2 ^ 32 ≡ hdr + header_size
      payload = omega (arith, heap.used)

      top : (hdr + header_size + want) % 2 ^ 32 ≡ hdr + header_size + want
      top = omega (arith, heap.used)
