-- ===== src/Mem/Layout.antt =====
-- The invariant of the heap: the free list is in order, and no two blocks overlap.
use mboot.Prelude.{
  ℕ, ◌+◌, ◌-◌, ◌*◌, ◌/◌, ◌%◌, ◌^◌, ◌≤◌, ◌<◌, ◌≡◌, sym, inl, inr, List, [], ◌∷◌, ◌++◌, arith,
}
use mboot.Prelude.Bits.{bit_and_above, bit_and_mask}
use mboot.Mem.{Heap, align_up_uintptr}
use mboot.Mem.Blocks.{
  Block, end, All, All-append, All-split, All-map, Seg, Within, Apart, PairwiseApart, before, after,
  before-append-after, length-Within,
}
use mboot.Mem.Walk.{is_below}
use mboot.Mem.Insert.{inserted, Within-above}
use mathlib.Core.Path.{subst}

-- A block that a caller holds: its header records its size, and it lies in the used part of the
-- heap, apart from the free blocks.
pub record IsLive (h : Heap) (free : List Block) (b : Block) : Type 0 where
  pub size : (h.header b.0).size ≡ b.1
  pub above : h.free_ram ≤ b.0
  pub below : end b ≤ h.bump_next
  pub apart : All (Apart b) free

pub record IsHeap (h : Heap) (free live : List Block) : Type 0 where
  pub chain : Seg h.header h.free_list_head free 0
  pub ordered : Within h.free_ram free h.bump_next
  pub used : h.bump_next ≤ h.free_ram_end
  pub nonnull : 0 < h.free_ram
  pub lives : All (IsLive h free) live
  pub apart : PairwiseApart live

-- `x + 7 & ~7`, where the sum does not wrap.
pub align_up-eight : (x : ℕ) → x + 7 < 2 ^ 32 → align_up_uintptr x 8 ≡ (x + 7) / 8 * 8
unfolding align_up_uintptr
align_up-eight x h = omega (
  arith,
  bit_and_above 3 ((x + 7) % 2 ^ 32) (2 ^ 29 - 1),
  bit_and_mask 29 ((x + 7) % 2 ^ 32 / 2 ^ 3),
)

-- A part of a block is apart from what the block is apart from.
pub Apart-inside : (b c d : Block) → Apart b c → c.0 ≤ d.0 → end d ≤ end c → Apart b d
Apart-inside b c d apart lo hi = ground arith

pub All-inserted {ℓ} :
    (P : Block → Type ℓ) (c : Block) (bs : List Block) → All P bs → P c → All P (inserted c bs)
All-inserted P c bs all p =
    let (q, r) =
      All-split P (before (is_below c.0) bs) (after (is_below c.0) bs)
        (subst (All P) (sym (before-append-after (is_below c.0) bs)) all) in
    All-append P (before (is_below c.0) bs) (c ∷ after (is_below c.0) bs) q (p, r)

pub Within-remove :
    (c : Block) (lo hi : ℕ) (pre post : List Block)
    → Within lo (pre ++ c ∷ post) hi
    → Within lo (pre ++ post) hi
Within-remove c lo hi [] [] w = omega arith
Within-remove c lo hi [] (b ∷ post) w = (omega arith, w.1.1)
Within-remove c lo hi (b ∷ pre) post w = (w.0, Within-remove c (end b) hi pre post w.1)

-- A block of an ordered list is apart from the others.
pub Within-Apart :
    (c : Block) (lo hi : ℕ) (pre post : List Block)
    → Within lo (pre ++ c ∷ post) hi
    → All (Apart c) (pre ++ post)
Within-Apart c lo hi [] post w =
    All-map {P = λ b. end c ≤ b.0} post (λ b h. inl h) (Within-above (end c) hi post w.1)
Within-Apart c lo hi (b ∷ pre) post w = (
  inr
      (All-split (λ d. end b ≤ d.0) pre (c ∷ post)
        (Within-above (end b) hi (pre ++ c ∷ post) w.1)).1.0,
  Within-Apart c (end b) hi pre post w.1,
)

pub Within-le : (lo hi : ℕ) (bs : List Block) → Within lo bs hi → lo ≤ hi
Within-le lo hi bs w = omega (arith, length-Within lo hi bs w)

-- Every block of an ordered list ends within its bounds.
pub Within-ends : (lo hi : ℕ) (bs : List Block) → Within lo bs hi → All (λ b. end b ≤ hi) bs
Within-ends lo hi [] w = tt
Within-ends lo hi (b ∷ bs) w = (Within-le (end b) hi bs w.1, Within-ends (end b) hi bs w.1)

pub Within-weaken :
    (lo hi top : ℕ) (bs : List Block) → Within lo bs hi → hi ≤ top → Within lo bs top
Within-weaken lo hi top [] w le = omega arith
Within-weaken lo hi top (b ∷ bs) w le = (w.0, Within-weaken (end b) hi top bs w.1 le)
