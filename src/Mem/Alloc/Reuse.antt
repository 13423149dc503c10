-- ===== src/Mem/Alloc/Reuse.antt =====
-- kmalloc on a free block that is large enough.
use mathlib.Core.Path.{subst}
use mboot.Prelude.{ℕ, ◌+◌, ◌%◌, ◌^◌, ◌≤◌, ◌<◌, ◌≡◌, ap, ◌∙◌, List, ◌∷◌, ◌++◌, arith}
use mboot.Mem.{Header, Heap, done, header_size, try_split_block, hand_out, ◌>>=◌}
use mboot.Mem.Blocks.{
  Block, end, All, All-map, All-split, All-append, Seg, Within, Apart, Outside, length-Within,
  Seg-split,
}
use mboot.Mem.Insert.{Within-split, Apart-Outside}
use mboot.Mem.Layout.{IsLive, IsHeap, Within-Apart, Within-remove}
use mboot.Mem.Take.{taken, taken-Seg, taken-size, taken-state, taken-header}
use mboot.Mem.Split.{SplitDone, try_split_block-SplitDone}
use mboot.Mem.Alloc.{Allocated, hand_out-Allocation}

module _ (h : Heap) (free live : List Block) (heap : IsHeap h free live)
    (word : h.free_ram_end < 2 ^ 32) (want : ℕ) where
  -- The reuse of block `c`, found between `pre` and `post`.
  module _ (c : Block) (pre post : List Block) (at : free ≡ pre ++ c ∷ post) (fits : want ≤ c.1)
      (small : want + 28 < 2 ^ 32) where
    pub chain_at : Seg h.header h.free_list_head (pre ++ c ∷ post) 0
    chain_at = subst (λ (l : List Block). Seg h.header h.free_list_head l 0) at heap.chain

    pub ordered_at : Within h.free_ram (pre ++ c ∷ post) h.bump_next
    ordered_at = subst (λ (l : List Block). Within h.free_ram l h.bump_next) at heap.ordered

    abbrev pub out : Heap
    out = taken h c pre post h.free_ram h.bump_next chain_at ordered_at

    out_state :
        (out.byte ≡ h.byte)
        × (out.bump_next ≡ h.bump_next)
        × (out.free_ram ≡ h.free_ram)
        × (out.free_ram_end ≡ h.free_ram_end)
    out_state = taken-state h c pre post h.free_ram h.bump_next chain_at ordered_at

    pub place : (h.free_ram ≤ c.0) × (end c ≤ h.bump_next)
    place =
        let (mid, w, v) = Within-split h.free_ram h.bump_next pre (c ∷ post) ordered_at in
        (
          omega (arith, length-Within h.free_ram mid pre w, v.0),
          omega (arith, length-Within (end c) h.bump_next post v.1),
        )

    split :
        (n : ℕ) × (g : Heap) × (try_split_block c.0 want out ≡ done n g)
        × SplitDone out c (pre ++ post) h.free_ram h.bump_next want g
    split =
        try_split_block-SplitDone out c (pre ++ post) h.free_ram h.bump_next want
          (taken-Seg h c pre post h.free_ram h.bump_next chain_at ordered_at)
          (Within-remove c h.free_ram h.bump_next pre post ordered_at)
          (Within-Apart c h.free_ram h.bump_next pre post ordered_at)
          (taken-size h c pre post h.free_ram h.bump_next chain_at ordered_at ∙ size) heap.nonnull
          place.0 place.1 (omega (arith, out_state, heap.used)) (omega (arith, out_state)) fits
          small
      where
        size : (h.header c.0).size ≡ c.1
        size = let (m, s, t) = Seg-split h.header h.free_list_head 0 pre (c ∷ post) chain_at in t.2

    live-Apart : (b : Block) → All (Apart b) free → Apart b c × All (Apart b) (pre ++ post)
    live-Apart b apart =
        let (p, q) = All-split (Apart b) pre (c ∷ post) (subst (All (Apart b)) at apart) in
        (q.0, All-append (Apart b) pre post p q.1)

    module _ (g : Heap) (s : SplitDone out c (pre ++ post) h.free_ram h.bump_next want g) where
      still-IsLive : (b : Block) → IsLive h free b → IsLive g s.free b
      still-IsLive b l =
          let (p, q) = live-Apart b l.apart in
          let outer = Apart-Outside b free l.apart in
          record {
            size =
                ap (λ (d : Header). d.size)
                  (s.frame b.0 (Apart-Outside b (pre ++ post) q) (ground arith)
                    ∙ taken-header h c pre post h.free_ram h.bump_next chain_at ordered_at b.0
                        (subst (Outside b.0) at outer))
                ∙ l.size;
            above = omega (arith, s.state, out_state, l.above);
            below = omega (arith, s.state, out_state, l.below);
            apart = s.spread b q p;
          }

      reused-IsHeap : IsHeap g s.free ((c.0, s.kept) ∷ live)
      reused-IsHeap = record {
        chain = s.chain;
        ordered = rw (s.state.2 ∙ out_state.2, s.state.1 ∙ out_state.1) s.ordered;
        used = omega (arith, s.state, out_state, heap.used);
        nonnull = omega (arith, s.state, out_state, heap.nonnull);
        lives = (
          record {
            size = s.size;
            above = omega (arith, s.state, out_state, place.0);
            below = omega (arith, s.state, out_state, place.1, s.inside);
            apart = s.apart;
          },
          All-map {P = IsLive h free} live still-IsLive heap.lives,
        );
        apart = (
          All-map {P = IsLive h free} live
              (λ b l. let p = (live-Apart b l.apart).0 in let k = s.inside in ground arith)
              heap.lives,
          heap.apart,
        );
      }

    pub reused :
        Allocated h free live want
          (try_split_block c.0 want out >>= λ _ h2. hand_out ((c.0 + header_size) % 2 ^ 32) want h2)
    reused =
        let (n, g, e, s) = split in
        let inside : (c.0 + header_size) % 2 ^ 32 ≡ c.0 + header_size =
          omega (arith, place.1, heap.used) in
        rw (e, inside)
          (hand_out-Allocation h g (c.0, s.kept) free s.free live want (reused-IsHeap g s) s.enough
            (omega (arith, s.state, out_state))
            (s.state.0 ∙ out_state.0, s.state.2 ∙ out_state.2, s.state.3 ∙ out_state.3))
