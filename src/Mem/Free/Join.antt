-- ===== src/Mem/Free/Join.antt =====
-- try_coalesce_adjacent on the free list.
use mboot.Prelude.{
  ℕ, ◌+◌, ◌%◌, ◌^◌, ◌≤◌, ◌<◌, ◌≡◌, ◌≢◌, refl, sym, true, false, List, [], ◌∷◌, ◌++◌, arith, ◌==◌,
}
use native.Mathlib.Decide.{ℕ_discrete}
use mboot.Mem.{Heap, header_size, set_header, try_coalesce_adjacent, coalesce_next}
use mboot.Mem.Blocks.{
  Block, end, All-map, All-split, All-append, Seg, Within, Outside, Seg-frame, Seg-append,
  Seg-split, length-Within,
}
use mboot.Mem.Insert.{Within-split, Apart-Outside}
use mboot.Mem.Layout.{Within-Apart}
use mboot.Mem.Free.{merged, join}

-- A step from the free list `bs` to `bs'` that writes only in headers of `bs`.
pub record ListStep (h : Heap) (bs bs' : List Block) (g : Heap) : Type 0 where
  pub chain : Seg g.header g.free_list_head bs' 0
  pub frame : (x : ℕ) → Outside x bs → g.header x ≡ h.header x
  pub outside : (x : ℕ) → Outside x bs → Outside x bs'
  pub state :
      (g.byte ≡ h.byte)
      × (g.bump_next ≡ h.bump_next)
      × (g.free_ram ≡ h.free_ram)
      × (g.free_ram_end ≡ h.free_ram_end)

pub stay : (h : Heap) (bs : List Block) → Seg h.header h.free_list_head bs 0 → ListStep h bs bs h
stay h bs s = record {
  chain = s;
  frame = λ x o. refl;
  outside = λ x o. o;
  state = (refl, refl, refl, refl);
}

module _ (h : Heap) (xs : List Block) (b c : Block) (ys : List Block) (lo hi : ℕ)
    (chain : Seg h.header h.free_list_head (xs ++ b ∷ c ∷ ys) 0)
    (ordered : Within lo (xs ++ b ∷ c ∷ ys) hi) (word : hi < 2 ^ 32) where
  parts : (m : ℕ) × Seg h.header h.free_list_head xs m × Seg h.header m (b ∷ c ∷ ys) 0
  parts = Seg-split h.header h.free_list_head 0 xs (b ∷ c ∷ ys) chain

  place : (mid : ℕ) × Within lo xs mid × Within mid (b ∷ c ∷ ys) hi
  place = Within-split lo hi xs (b ∷ c ∷ ys) ordered

  pub join_heap : Heap
  join_heap =
      set_header b.0
        (record { size = b.1 + header_size + c.1; free = true; next = (h.header c.0).next }) h

  others : Outside b.0 xs × Outside b.0 (c ∷ ys)
  others =
      All-split (λ d. b.0 ≢ d.0) xs (c ∷ ys)
        (Apart-Outside b (xs ++ c ∷ ys) (Within-Apart b lo hi xs (c ∷ ys) ordered))

  join-header :
      join_heap.header b.0
      ≡ record { size = b.1 + header_size + c.1; free = true; next = (h.header c.0).next }
  unfolding join_heap
  join-header = ground arith

  join-frame : (x : ℕ) → x ≢ b.0 → join_heap.header x ≡ h.header x
  unfolding join_heap
  join-frame x ne = ground arith

  joined_Seg : Seg join_heap.header parts.0 (merged b c ∷ ys) 0
  joined_Seg =
      let (m, s, t) = parts in
      (
        t.0,
        t.1,
        rw join-header,
        rw join-header,
        rw join-header (
            Seg-frame h.header join_heap.header (h.header c.0).next 0 ys t.4.4 (
              All-map {P = λ d. b.0 ≢ d.0} ys (λ d ne. join-frame d.0 (λ e. ne (sym e)))
                others.1.1)),
      )

  pub join-ListStep : ListStep h (xs ++ b ∷ c ∷ ys) (xs ++ merged b c ∷ ys) join_heap
  unfolding join_heap
  join-ListStep =
      let (m, s, t) = parts in
      record {
        chain =
            Seg-append join_heap.header h.free_list_head m 0 xs (merged b c ∷ ys)
              (Seg-frame h.header join_heap.header h.free_list_head m xs s
                (All-map {P = λ d. b.0 ≢ d.0} xs (λ d ne. ground arith) others.0))
              joined_Seg;
        frame = λ x o. join-frame x (All-split (λ d. x ≢ d.0) xs (b ∷ c ∷ ys) o).1.0;
        outside = λ x o.
            let (p, q) = All-split (λ d. x ≢ d.0) xs (b ∷ c ∷ ys) o in
            All-append (λ d. x ≢ d.0) xs (merged b c ∷ ys) p (q.0, q.1.1);
        state = (refl, refl, refl, refl);
      }

  bounds : (end b ≤ hi) × (end c ≤ hi) × (end b ≤ c.0)
  bounds =
      let w = place.2 in
      let k = length-Within (end c) hi ys w.1.1 in (omega arith, omega arith, w.1.0)

  end_at : (b.0 + header_size + (h.header b.0).size) % 2 ^ 32 ≡ end b
  end_at = let (m, s, t) = parts in rw t.2 (omega (arith, bounds))

  -- Blocks that touch are joined, and the answer says so.
  pub try_coalesce-join : end b ≡ c.0 → try_coalesce_adjacent b.0 c.0 h ≡ (join_heap, true)
  unfolding try_coalesce_adjacent join_heap
  try_coalesce-join e =
      let (m, s, t) = parts in
      let touch : (end b == c.0) ≡ true = ground arith in
      let fits : (b.1 + header_size + c.1) % 2 ^ 32 ≡ b.1 + header_size + c.1 =
        omega (arith, bounds) in
      rw (end_at, touch, t.2, t.4.2, t.3, fits)

  pub try_coalesce-apart : end b ≢ c.0 → try_coalesce_adjacent b.0 c.0 h ≡ (h, false)
  unfolding try_coalesce_adjacent
  try_coalesce-apart ne = let gap : (end b == c.0) ≡ false = ground arith in rw (end_at, gap)

-- Joining a block with its successor, if they touch.
pub coalesce_next-ListStep :
    (h : Heap) (xs : List Block) (c : Block) (ys : List Block) (lo hi : ℕ)
    → Seg h.header h.free_list_head (xs ++ c ∷ ys) 0
    → Within lo (xs ++ c ∷ ys) hi
    → hi < 2 ^ 32
    → ListStep h (xs ++ c ∷ ys) (xs ++ join c ys) (coalesce_next c.0 h)
unfolding coalesce_next
coalesce_next-ListStep h xs c [] lo hi chain ordered word =
    let (m, s, t) = Seg-split h.header h.free_list_head 0 xs (c ∷ []) chain in
    rw t.4 (stay h (xs ++ c ∷ []) chain)
coalesce_next-ListStep h xs c (d ∷ ds) lo hi chain ordered word =
    let (m, s, t) = Seg-split h.header h.free_list_head 0 xs (c ∷ d ∷ ds) chain in
    let some_next : (d.0 == 0) ≡ false = let n = t.4.1 in ground arith in
    rw (t.4.0, some_next)
      (elim (ℕ_discrete (end c) d.0) [
        | yes e ↦
            let touch : (end c == d.0) ≡ true = ground arith in
            rw (try_coalesce-join h xs c d ds lo hi chain ordered word e, touch)
              (join-ListStep h xs c d ds lo hi chain ordered word)
        | no ne ↦
            let gap : (end c == d.0) ≡ false = ground arith in
            rw (try_coalesce-apart h xs c d ds lo hi chain ordered word ne, gap)
              (stay h (xs ++ c ∷ d ∷ ds) chain)
      ])
