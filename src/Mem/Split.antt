-- ===== src/Mem/Split.antt =====
-- try_split_block: the remainder of a large block goes back to the list.
use mboot.Prelude.{
  ℕ, ◌+◌, ◌-◌, ◌%◌, ◌^◌, ◌≤◌, ◌<◌, ◌≡◌, ◌≢◌, refl, sym, ◌∙◌, ◌⊎◌, inl, true, false, List, [], ◌∷◌,
  arith, leb,
}
use native.Mathlib.Decide.{dec_lt}
use mboot.Mem.{Heap, done, header_size, set_header, insert_sorted, try_split_block}
use mboot.Mem.Blocks.{
  Block, end, All, All-map, Seg, Within, Apart, Outside, Seg-frame, last_or, before,
}
use mboot.Mem.Walk.{is_below}
use mboot.Mem.Insert.{
  inserted, inserted_heap, insert_sorted-run, insert_sorted-Seg, insert_sorted-Outside,
  insert_sorted-state, Within-insert, Apart-Outside, before-Outside,
}
use mboot.Mem.Layout.{Apart-inside, All-inserted}

-- What is left of block `c` once `want` bytes of it are kept: the list `free` behind the split
-- and the size that the block keeps.
pub record SplitDone (h : Heap) (c : Block) (bs : List Block) (lo hi want : ℕ) (g : Heap)
    : Type 0 where
  pub kept : ℕ
  pub free : List Block
  pub enough : want ≤ kept
  pub inside : kept ≤ c.1
  pub size : (g.header c.0).size ≡ kept
  pub chain : Seg g.header g.free_list_head free 0
  pub ordered : Within lo free hi
  pub apart : All (Apart (c.0, kept)) free
  pub frame : (x : ℕ) → Outside x bs → (x < c.0) ⊎ (end c ≤ x) → g.header x ≡ h.header x
  pub spread : (d : Block) → All (Apart d) bs → Apart d c → All (Apart d) free
  pub state :
      (g.byte ≡ h.byte)
      × (g.bump_next ≡ h.bump_next)
      × (g.free_ram ≡ h.free_ram)
      × (g.free_ram_end ≡ h.free_ram_end)

module _ (h : Heap) (c : Block) (bs : List Block) (lo hi want : ℕ)
    (chain : Seg h.header h.free_list_head bs 0) (ordered : Within lo bs hi)
    (apart : All (Apart c) bs) (size : (h.header c.0).size ≡ c.1) (positive : 0 < lo)
    (above : lo ≤ c.0) (below : end c ≤ hi) (room : hi ≤ h.free_ram_end)
    (word : h.free_ram_end < 2 ^ 32) (fits : want ≤ c.1) (small : want + 28 < 2 ^ 32) where
  whole : c.1 ≤ want + 28 → SplitDone h c bs lo hi want h
  whole le = record {
    kept = c.1;
    free = bs;
    enough = fits;
    inside = omega arith;
    size = size;
    chain = chain;
    ordered = ordered;
    apart = apart;
    frame = λ x out k. refl;
    spread = λ d p q. p;
    state = (refl, refl, refl, refl);
  }

  abbrev rest : Block
  rest = (c.0 + header_size + want, c.1 - want - header_size)

  marked : Heap
  marked =
      let h1 = set_header rest.0 (record { size = rest.1; free = true; next = 0 }) h in
      set_header c.0 (record (h1.header c.0) { size = want }) h1

  rest-Apart : want + 28 < c.1 → All (Apart rest) bs
  rest-Apart lt = All-map {P = Apart c} bs (λ b p. ground arith) apart

  marked-header : (x : ℕ) → x ≢ c.0 → x ≢ rest.0 → marked.header x ≡ h.header x
  unfolding marked
  marked-header x ne ne' = ground arith

  marked-Seg : want + 28 < c.1 → Seg marked.header marked.free_list_head bs 0
  unfolding marked
  marked-Seg lt =
      Seg-frame h.header marked.header h.free_list_head 0 bs chain
        (same bs (Apart-Outside c bs apart) (Apart-Outside rest bs (rest-Apart lt)))
    where
      same :
          (ys : List Block)
          → Outside c.0 ys
          → Outside rest.0 ys
          → All (λ b. marked.header b.0 ≡ h.header b.0) ys
      same [] o k = tt
      same (y ∷ ys) o k = (marked-header y.0 (λ e. o.0 (sym e)) (λ e. k.0 (sym e)), same ys o.1 k.1)

  rest-header :
      want + 28 < c.1 → marked.header rest.0 ≡ record { size = rest.1; free = true; next = 0 }
  unfolding marked
  rest-header lt = ground arith

  block-size : want + 28 < c.1 → (marked.header c.0).size ≡ want
  unfolding marked
  block-size lt = ground arith

  module _ (lt : want + 28 < c.1) where
    rest-Outside : Outside rest.0 bs
    rest-Outside = Apart-Outside rest bs (rest-Apart lt)

    nonnull : rest.0 ≢ 0
    nonnull = omega arith

    rest_size : (marked.header rest.0).size ≡ rest.1
    rest_size = rw (rest-header lt)

    rest_free : (marked.header rest.0).free ≡ true
    rest_free = rw (rest-header lt)

    abbrev split_heap : Heap
    split_heap =
        inserted_heap marked rest bs lo hi (marked-Seg lt) ordered rest-Outside nonnull rest_size
          rest_free

    split_frame : (x : ℕ) → x ≢ rest.0 → Outside x bs → split_heap.header x ≡ marked.header x
    split_frame x ne out =
        insert_sorted-Outside marked rest bs lo hi (marked-Seg lt) ordered rest-Outside nonnull
          rest_size rest_free x ne (before-Outside (is_below rest.0) x bs out)

    apart_rest : c.0 ≢ rest.0
    apart_rest = omega arith

    split_state :
        (split_heap.byte ≡ h.byte)
        × (split_heap.bump_next ≡ h.bump_next)
        × (split_heap.free_ram ≡ h.free_ram)
        × (split_heap.free_ram_end ≡ h.free_ram_end)
    unfolding marked
    split_state =
        insert_sorted-state marked rest bs lo hi (marked-Seg lt) ordered rest-Outside nonnull
          rest_size rest_free

    split_eq : try_split_block c.0 want h ≡ insert_sorted rest.0 marked
    unfolding try_split_block marked
    split_eq = rw (size, large, address, remainder)
      where
        large : leb c.1 ((want + header_size + 16) % 2 ^ 32) ≡ false
        large = ground arith

        address : (c.0 + header_size + want) % 2 ^ 32 ≡ rest.0
        address = omega arith

        remainder : (c.1 + 2 ^ 32 + 2 ^ 32 - want - header_size) % 2 ^ 32 ≡ rest.1
        remainder = omega arith

    split_run :
        insert_sorted rest.0 marked ≡ done (last_or 0 (before (is_below rest.0) bs)) split_heap
    unfolding marked
    split_run =
        insert_sorted-run marked rest bs lo hi (marked-Seg lt) ordered rest-Outside nonnull
          rest_size rest_free room

    split-done : SplitDone h c bs lo hi want split_heap
    split-done = record {
      kept = want;
      free = inserted rest bs;
      enough = omega arith;
      inside = omega arith;
      size = rw (split_frame c.0 apart_rest (Apart-Outside c bs apart)) (block-size lt);
      chain =
          insert_sorted-Seg marked rest bs lo hi (marked-Seg lt) ordered rest-Outside nonnull
            rest_size rest_free;
      ordered = Within-insert rest lo hi bs ordered (rest-Apart lt) (omega arith) (omega arith);
      apart =
          All-inserted (Apart (c.0, want)) rest bs
            (All-map {P = Apart c} bs (λ b p. ground arith) apart) (inl (omega arith));
      frame =
          λ x out k. split_frame x (omega arith) out ∙ marked-header x (omega arith) (omega arith);
      spread = λ d p q.
          All-inserted (Apart d) rest bs p (Apart-inside d c rest q (omega arith) (omega arith));
      state = split_state;
    }

  pub try_split_block-SplitDone :
      (n : ℕ) × (g : Heap) × (try_split_block c.0 want h ≡ done n g) × SplitDone h c bs lo hi want g
  unfolding try_split_block
  try_split_block-SplitDone = elim (dec_lt (want + 28) c.1) [
    | yes lt ↦ (
      last_or 0 (before (is_below rest.0) bs),
      split_heap lt,
      split_eq lt ∙ split_run lt,
      split-done lt,
    )
    | no ge ↦ (0, h, ground arith, whole (omega arith))
  ]
