-- ===== src/Mem/Free/Kfree.antt =====
-- kfree of a live block: it runs to its end, and the heap stays well formed.
use mathlib.Core.Path.{subst}
use mboot.Prelude.{
  ℕ, ◌+◌, ◌-◌, ◌%◌, ◌^◌, ◌<◌, ◌≡◌, ◌≢◌, sym, ap, ◌∙◌, true, false, List, [], ◌∷◌, ◌++◌, arith, ltb,
  leb, ◌==◌, le→ltb, lt→leb,
}
use mboot.Mem.{
  Header, Heap, done, header_size, set_header, insert_sorted, coalesce, free_block, kfree,
}
use mboot.Mem.Blocks.{
  Block, All, All-map, All-split, Seg, Apart, Outside, before, after, before-append-after, last_or,
  Seg-frame,
}
use mboot.Mem.Walk.{is_below}
use mboot.Mem.Insert.{
  inserted, inserted_heap, insert_sorted-run, insert_sorted-Seg, insert_sorted-Outside,
  insert_sorted-state, Within-insert, Apart-Outside,
}
use mboot.Mem.Layout.{IsLive, IsHeap, All-inserted}
use mboot.Mem.Free.{released, Within-released, Apart-released}
use mboot.Mem.Free.Join.{ListStep}
use mboot.Mem.Free.Coalesce.{coalesce-Joins, before-below, before-inserted, released-after}

module _ (h : Heap) (c : Block) (free live : List Block) (heap : IsHeap h free (c ∷ live))
    (word : h.free_ram_end < 2 ^ 32) where
  abbrev marked : Heap
  marked = set_header c.0 (record { size = (h.header c.0).size; free = true; next = 0 }) h

  held : IsLive h free c
  held = heap.lives.0

  outside : Outside c.0 free
  outside = Apart-Outside c free held.apart

  marked-header : (x : ℕ) → x ≢ c.0 → marked.header x ≡ h.header x
  marked-header x ne = ground arith

  marked-Seg : Seg marked.header h.free_list_head free 0
  marked-Seg =
      Seg-frame h.header marked.header h.free_list_head 0 free heap.chain
        (All-map {P = λ b. c.0 ≢ b.0} free (λ b ne. marked-header b.0 (λ e. ne (sym e))) outside)

  nonzero : c.0 ≢ 0
  nonzero = omega (arith, held.above, heap.nonnull)

  size : (marked.header c.0).size ≡ c.1
  size = let k = held.size in ground arith

  is_free : (marked.header c.0).free ≡ true
  is_free = ground arith

  abbrev linked : Heap
  linked =
      inserted_heap marked c free h.free_ram h.bump_next marked-Seg heap.ordered outside nonzero
        size is_free

  linked-state :
      (linked.byte ≡ h.byte)
      × (linked.bump_next ≡ h.bump_next)
      × (linked.free_ram ≡ h.free_ram)
      × (linked.free_ram_end ≡ h.free_ram_end)
  linked-state =
      insert_sorted-state marked c free h.free_ram h.bump_next marked-Seg heap.ordered outside
        nonzero size is_free

  linked-header : (x : ℕ) → Outside x (inserted c free) → linked.header x ≡ h.header x
  linked-header x out =
      let (p, q) =
        All-split (λ b. x ≢ b.0) (before (is_below c.0) free) (c ∷ after (is_below c.0) free) out in
      insert_sorted-Outside marked c free h.free_ram h.bump_next marked-Seg heap.ordered outside
        nonzero size is_free x q.0 p
      ∙ marked-header x q.0

  joins :
      (g : Heap) × (coalesce (last_or 0 (before (is_below c.0) free)) c.0 linked ≡ done tt g)
      × ListStep linked
          (inserted c free)
          (released c (before (is_below c.0) free ++ after (is_below c.0) free))
          g
  joins =
      coalesce-Joins linked c (before (is_below c.0) free) (after (is_below c.0) free) h.free_ram
        h.bump_next
        (insert_sorted-Seg marked c free h.free_ram h.bump_next marked-Seg heap.ordered outside
          nonzero size is_free)
        (Within-insert c h.free_ram h.bump_next free heap.ordered held.apart held.above held.below)
        (omega (arith, linked-state)) (omega (arith, linked-state, heap.used)) (before-below c free)
        (before-inserted c free) (released-after c free)

  -- What a call of kfree on the block's payload leaves.
  abbrev pub Freed : Heap → Type 0
  Freed g =
      IsHeap g (released c free) live
      × (g.byte ≡ h.byte)
      × (g.bump_next ≡ h.bump_next)
      × (g.free_ram ≡ h.free_ram)
      × (g.free_ram_end ≡ h.free_ram_end)

  module _ (g : Heap) (step : ListStep linked (inserted c free) (released c free) g) where
    still-IsLive : (b : Block) → IsLive h free b → Apart c b → IsLive g (released c free) b
    still-IsLive b l apart = record {
      size = ap (λ (d : Header). d.size) (step.frame b.0 out ∙ linked-header b.0 out) ∙ l.size;
      above = omega (arith, l.above, step.state, linked-state);
      below = omega (arith, l.below, step.state, linked-state);
      apart = Apart-released b c free (ground arith) l.apart;
    }
      where
        out : Outside b.0 (inserted c free)
        out = All-inserted (λ d. b.0 ≢ d.0) c free (Apart-Outside b free l.apart) (omega arith)

    All-IsLive :
        (bs : List Block)
        → All (IsLive h free) bs
        → All (Apart c) bs
        → All (IsLive g (released c free)) bs
    All-IsLive [] p q = tt
    All-IsLive (b ∷ bs) p q = (still-IsLive b p.0 q.0, All-IsLive bs p.1 q.1)

    freed : Freed g
    freed = (
      record {
        chain = step.chain;
        ordered =
            rw (step.state.2 ∙ linked-state.2, step.state.1 ∙ linked-state.1)
              (Within-released c h.free_ram h.bump_next free heap.ordered held.apart held.above
                held.below);
        used = omega (arith, step.state, linked-state, heap.used);
        nonnull = omega (arith, step.state, linked-state, heap.nonnull);
        lives = All-IsLive live heap.lives.1 heap.apart.0;
        apart = heap.apart.1;
      },
      step.state.0 ∙ linked-state.0,
      step.state.1 ∙ linked-state.1,
      step.state.2 ∙ linked-state.2,
      step.state.3 ∙ linked-state.3,
    )

  pub kfree-Freed : (g : Heap) × (kfree (c.0 + header_size) h ≡ done tt g) × Freed g
  unfolding kfree free_block
  kfree-Freed =
      let (g, e, j) = joins in
      (
        g,
        rw (some_loc, block, above_ram, below_end, run) e,
        freed g (
            subst (λ (l : List Block). ListStep linked (inserted c free) (released c l) g)
              (before-append-after (is_below c.0) free) j),
      )
    where
      some_loc : (c.0 + header_size == 0) ≡ false
      some_loc = ground arith

      block : (c.0 + header_size + 2 ^ 32 - header_size) % 2 ^ 32 ≡ c.0
      block = omega (arith, held.below, heap.used)

      above_ram : ltb c.0 h.free_ram ≡ false
      above_ram = le→ltb c.0 h.free_ram held.above

      below_end : leb h.free_ram_end c.0 ≡ false
      below_end = lt→leb h.free_ram_end c.0 (omega (arith, held.below, heap.used))

      run : insert_sorted c.0 marked ≡ done (last_or 0 (before (is_below c.0) free)) linked
      run =
          insert_sorted-run marked c free h.free_ram h.bump_next marked-Seg heap.ordered outside
            nonzero size is_free heap.used
