-- ===== src/Mem/Take.antt =====
-- find_free_block_and_remove: the first block that is large enough leaves the list.
use mboot.Prelude.{ℕ, ◌≤◌, ◌<◌, ◌≡◌, ◌≢◌, sym, List, [], ◌∷◌, ◌++◌, arith}
use mboot.Mem.{Heap, rounds, set_link, take_block, find_free_block_and_remove}
use mboot.Mem.Blocks.{
  Block, All, All-map, All-split, Seg, Within, last_or, Outside, before, after, Seg-frame,
  Seg-append, Seg-split, length-Within,
}
use mboot.Mem.Walk.{
  too_small, Found, find_loop-Found, set_link-Seg, set_link-Outside, set_link-fields,
  set_link-state,
}
use mboot.Mem.Insert.{Within-split, parts_apart, Apart-Outside}
use mboot.Mem.Layout.{Within-Apart}

-- The block taken out of a list, `c` between `pre` and `post`.
module _ (h : Heap) (c : Block) (pre post : List Block) (lo hi : ℕ)
    (chain : Seg h.header h.free_list_head (pre ++ c ∷ post) 0)
    (ordered : Within lo (pre ++ c ∷ post) hi) where
  abbrev pub taken : Heap
  taken = take_block (last_or 0 pre) c.0 h

  others : Outside c.0 pre × Outside c.0 post
  others =
      All-split (λ b. c.0 ≢ b.0) pre post
        (Apart-Outside c (pre ++ post) (Within-Apart c lo hi pre post ordered))

  pub taken-Outside : (x : ℕ) → x ≢ c.0 → Outside x pre → taken.header x ≡ h.header x
  unfolding take_block
  taken-Outside x ne out = ground (arith, set_link-Outside h (h.header c.0).next pre x out)

  pub taken-size : (taken.header c.0).size ≡ (h.header c.0).size
  unfolding take_block
  taken-size = ground (arith, set_link-fields h (h.header c.0).next (last_or 0 pre) c.0)

  pub taken-state :
      (taken.byte ≡ h.byte)
      × (taken.bump_next ≡ h.bump_next)
      × (taken.free_ram ≡ h.free_ram)
      × (taken.free_ram_end ≡ h.free_ram_end)
  unfolding take_block
  taken-state = set_link-state h (h.header c.0).next (last_or 0 pre)

  pub taken-Seg : Seg taken.header taken.free_list_head (pre ++ post) 0
  unfolding take_block
  taken-Seg =
      let (m, s, t) = Seg-split h.header h.free_list_head 0 pre (c ∷ post) chain in
      let (mid, w, v) = Within-split lo hi pre (c ∷ post) ordered in
      let linked = set_link (last_or 0 pre) (h.header c.0).next h in
      Seg-append taken.header taken.free_list_head (h.header c.0).next 0 pre post
        (Seg-frame linked.header taken.header linked.free_list_head (h.header c.0).next pre
          (set_link-Seg h (h.header c.0).next pre m lo mid s w)
          (All-map {P = λ b. c.0 ≢ b.0} pre (λ b ne. ground arith) others.0))
        (Seg-frame h.header taken.header (h.header c.0).next 0 post t.4
          (unchanged post others.1 (parts_apart lo hi pre (c ∷ post) ordered).1))
    where
      unchanged :
          (ys : List Block)
          → Outside c.0 ys
          → All (λ b. Outside b.0 pre) ys
          → All (λ b. taken.header b.0 ≡ h.header b.0) ys
      unchanged [] o k = tt
      unchanged (y ∷ ys) o k = (taken-Outside y.0 (λ e. o.0 (sym e)) k.0, unchanged ys o.1 k.1)

  pub taken-header : (x : ℕ) → Outside x (pre ++ c ∷ post) → taken.header x ≡ h.header x
  taken-header x out =
      let (o, p) = All-split (λ b. x ≢ b.0) pre (c ∷ post) out in taken-Outside x p.0 o

-- The search of a list in order reaches the first block that fits, within its rounds.
pub find-Found :
    (h : Heap) (want : ℕ) (bs : List Block) (lo : ℕ)
    → Seg h.header h.free_list_head bs 0
    → Within lo bs h.free_ram_end
    → find_free_block_and_remove want h
      ≡ Found h (last_or 0 (before (too_small want) bs)) (after (too_small want) bs)
unfolding find_free_block_and_remove
find-Found h want bs lo s w =
    find_loop-Found (rounds h) want 0 h.free_list_head h bs s
      (omega (arith, length-Within lo h.free_ram_end bs w))

-- Every block before the one found is too small, and the one found is not.
pub before-small : (want : ℕ) (bs : List Block) → All (λ b. b.1 < want) (before (too_small want) bs)
before-small want [] = tt
before-small want (b ∷ bs) = ground (arith, before-small want bs)

pub after-fits :
    (want : ℕ) (bs : List Block) (c : Block) (post : List Block)
    → after (too_small want) bs ≡ c ∷ post
    → want ≤ c.1
after-fits want [] c post e = cc
after-fits want (b ∷ bs) c post e = ground (arith, after-fits want bs c post)
