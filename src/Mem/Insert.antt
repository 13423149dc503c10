-- ===== src/Mem/Insert.antt =====
-- Insertion into the address-ordered free list, and what it keeps.
use mathlib.Core.Path.{subst}
use mboot.Prelude.{ℕ, ◌≤◌, ◌≡◌, ◌≢◌, refl, sym, Bool, true, List, [], ◌∷◌, ◌++◌, arith}
use mboot.Mem.{Heap, done, rounds, set_next, insert_between, insert_sorted}
use mboot.Mem.Blocks.{
  Block, end, All, All-map, All-split, Seg, Within, Apart, last_or, Outside, before, after,
  before-append-after, first_or_null, first_of_Seg, Seg-frame, Seg-append, Seg-split, length-Within,
}
use mboot.Mem.Walk.{is_below, locate-split, set_link-Seg, set_link-Outside, set_link-state}

pub Within-split :
    (lo hi : ℕ) (xs ys : List Block)
    → Within lo (xs ++ ys) hi
    → (mid : ℕ) × Within lo xs mid × Within mid ys hi
Within-split lo hi [] ys w = (lo, omega arith, w)
Within-split lo hi (x ∷ xs) ys w =
    let (mid, v, u) = Within-split (end x) hi xs ys w.1 in (mid, (w.0, v), u)

pub Within-append :
    (lo mid hi : ℕ) (xs ys : List Block)
    → Within lo xs mid
    → Within mid ys hi
    → Within lo (xs ++ ys) hi
Within-append lo mid hi [] [] w v = omega arith
Within-append lo mid hi [] (y ∷ ys) w v = (omega arith, v.1)
Within-append lo mid hi (x ∷ xs) ys w v = (w.0, Within-append (end x) mid hi xs ys w.1 v)

pub Within-above : (lo hi : ℕ) (bs : List Block) → Within lo bs hi → All (λ b. lo ≤ b.0) bs
Within-above lo hi [] w = tt
Within-above lo hi (b ∷ bs) w =
    (w.0, All-map {P = λ c. end b ≤ c.0} bs (λ c h. omega arith) (Within-above (end b) hi bs w.1))

pub Outside-above : (lo mid x : ℕ) (bs : List Block) → Within lo bs mid → mid ≤ x → Outside x bs
Outside-above lo mid x [] w h = tt
Outside-above lo mid x (b ∷ bs) w h =
    (omega (arith, length-Within (end b) mid bs w.1), Outside-above (end b) mid x bs w.1 h)

-- The parts of an ordered list have no address in common.
pub parts_apart :
    (lo hi : ℕ) (xs ys : List Block) → Within lo (xs ++ ys) hi → All (λ b. Outside b.0 xs) ys
parts_apart lo hi xs ys w =
    let (mid, v, u) = Within-split lo hi xs ys w in
    All-map {P = λ b. mid ≤ b.0} ys (λ b h. Outside-above lo mid b.0 xs v h)
      (Within-above mid hi ys u)

-- A block apart from the others keeps the order where it is inserted.
pub Within-insert :
    (c : Block) (lo hi : ℕ) (bs : List Block)
    → Within lo bs hi
    → All (Apart c) bs
    → lo ≤ c.0
    → end c ≤ hi
    → Within lo (before (is_below c.0) bs ++ c ∷ after (is_below c.0) bs) hi
Within-insert c lo hi [] w apart h k = (h, k)
Within-insert c lo hi (b ∷ bs) w apart h k =
    ground (arith, Within-insert c (end b) hi bs w.1 apart.1)

pub Apart-Outside : (c : Block) (bs : List Block) → All (Apart c) bs → Outside c.0 bs
Apart-Outside c bs apart = All-map {P = Apart c} bs (λ b h. omega arith) apart

-- The free list with a block inserted by its address.
abbrev pub inserted : Block → List Block → List Block
inserted c bs = before (is_below c.0) bs ++ c ∷ after (is_below c.0) bs

module _ (h : Heap) (c : Block) (bs : List Block) (lo hi : ℕ)
    (chain : Seg h.header h.free_list_head bs 0) (ordered : Within lo bs hi)
    (outside : Outside c.0 bs) (nonzero : c.0 ≢ 0) (size : (h.header c.0).size ≡ c.1)
    (free : (h.header c.0).free ≡ true) where
  abbrev pub pre : List Block
  pre = before (is_below c.0) bs

  abbrev pub post : List Block
  post = after (is_below c.0) bs

  abbrev pub inserted_heap : Heap
  inserted_heap = insert_between c.0 (last_or 0 pre, first_or_null post) h

  pub insert_sorted-run :
      hi ≤ h.free_ram_end → insert_sorted c.0 h ≡ done (last_or 0 pre) inserted_heap
  unfolding insert_sorted
  insert_sorted-run room = rw (
    locate-split (rounds h) c.0 0 h.free_list_head h bs chain
        (omega (arith, length-Within lo hi bs ordered)),
    insert_sorted,
  )

  linked : Heap
  linked = set_next c.0 (first_or_null post) h

  -- Headers outside the list and the block are as before.
  pub insert_sorted-Outside :
      (x : ℕ) → x ≢ c.0 → Outside x pre → inserted_heap.header x ≡ h.header x
  unfolding insert_between linked
  insert_sorted-Outside x ne out = ground (arith, set_link-Outside linked c.0 pre x out)

  pub insert_sorted-block :
      Outside c.0 pre
      → inserted_heap.header c.0 ≡ record (h.header c.0) { next = first_or_null post }
  unfolding insert_between linked
  insert_sorted-block out = ground (arith, set_link-Outside linked c.0 pre c.0 out)

  apart_pre : Outside c.0 pre × Outside c.0 post
  apart_pre =
      All-split (λ b. c.0 ≢ b.0) pre post
        (subst (Outside c.0) (sym (before-append-after (is_below c.0) bs)) outside)

  halves : (m : ℕ) × Seg h.header h.free_list_head pre m × Seg h.header m post 0
  halves = Seg-split h.header h.free_list_head 0 pre post (
      subst (λ (l : List Block). Seg h.header h.free_list_head l 0)
        (sym (before-append-after (is_below c.0) bs)) chain)

  lower : (mid : ℕ) × Within lo pre mid × Within mid post hi
  lower = Within-split lo hi pre post (
      subst (λ (l : List Block). Within lo l hi) (sym (before-append-after (is_below c.0) bs))
        ordered)

  before_Seg : Seg inserted_heap.header inserted_heap.free_list_head pre c.0
  unfolding insert_between
  before_Seg =
      let (m, s, t) = halves in
      set_link-Seg (set_next c.0 (first_or_null post) h) c.0 pre m lo lower.0
        (Seg-frame h.header (set_next c.0 (first_or_null post) h).header h.free_list_head m pre s
          (All-map {P = λ b. c.0 ≢ b.0} pre (λ b ne. ground arith) apart_pre.0))
        lower.1

  after_Seg : Seg inserted_heap.header (first_or_null post) post 0
  after_Seg =
      let (m, s, t) = halves in
      let t' : Seg h.header (first_or_null post) post 0 =
        subst (λ (p : ℕ). Seg h.header p post 0) (first_of_Seg h.header m post t) t in
      Seg-frame h.header inserted_heap.header (first_or_null post) 0 post t'
        (unchanged post apart_pre.1 above)
    where
      above : All (λ b. Outside b.0 pre) post
      above =
          All-map {P = λ b. lower.0 ≤ b.0} post (λ b k. Outside-above lo lower.0 b.0 pre lower.1 k)
            (Within-above lower.0 hi post lower.2)

      unchanged :
          (ys : List Block)
          → Outside c.0 ys
          → All (λ b. Outside b.0 pre) ys
          → All (λ b. inserted_heap.header b.0 ≡ h.header b.0) ys
      unchanged [] o k = tt
      unchanged (y ∷ ys) o k =
          (insert_sorted-Outside y.0 (λ e. o.0 (sym e)) k.0, unchanged ys o.1 k.1)

  pub insert_sorted-Seg : Seg inserted_heap.header inserted_heap.free_list_head (inserted c bs) 0
  insert_sorted-Seg =
      let block = insert_sorted-block apart_pre.0 in
      Seg-append inserted_heap.header inserted_heap.free_list_head c.0 0 pre (c ∷ post) before_Seg
        (refl, nonzero, rw block size, rw block free, rw block after_Seg)

  pub insert_sorted-state :
      (inserted_heap.byte ≡ h.byte)
      × (inserted_heap.bump_next ≡ h.bump_next)
      × (inserted_heap.free_ram ≡ h.free_ram)
      × (inserted_heap.free_ram_end ≡ h.free_ram_end)
  unfolding insert_between
  insert_sorted-state = set_link-state (set_next c.0 (first_or_null post) h) c.0 (last_or 0 pre)

-- What is outside a list is outside its parts.
pub before-Outside :
    (test : Block → Bool) (x : ℕ) (bs : List Block) → Outside x bs → Outside x (before test bs)
before-Outside test x bs out =
    (All-split (λ b. x ≢ b.0) (before test bs) (after test bs)
      (subst (Outside x) (sym (before-append-after test bs)) out)).0
