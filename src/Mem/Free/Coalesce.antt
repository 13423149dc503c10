-- ===== src/Mem/Free/Coalesce.antt =====
-- Both joins of kfree, behind the insertion of the block.
use mathlib.Core.Path.{subst}
use mathlib.Core.List.{append_assoc}
use native.Mathlib.Decide.{ℕ_discrete}
use mboot.Prelude.{
  ℕ, ◌^◌, ◌≤◌, ◌<◌, ◌≡◌, ◌≢◌, refl, sym, ap, ◌∙◌, ◌⊎◌, inl, inr, true, false, some, List, [], ◌∷◌,
  ◌++◌, arith, ◌==◌, lt→ltb,
}
use mboot.Mem.{Heap, done, rounds, locate, coalesce_next, coalesce}
use mboot.Mem.Blocks.{
  Block, end, All, All-map, All-split, Seg, Within, before, after, last_or, first_or_null,
  Seg-split, length-Within,
}
use mboot.Mem.Walk.{is_below, locate-split}
use mboot.Mem.Insert.{inserted, Within-split, Within-append}
use mboot.Mem.Layout.{Within-ends}
use mboot.Mem.Free.{merged, join, released, released-append}
use mboot.Mem.Free.Join.{
  ListStep, join_heap, join-ListStep, try_coalesce-join, try_coalesce-apart, coalesce_next-ListStep,
}

pub ListStep-trans :
    (h g k : Heap) (xs ys zs : List Block)
    → ListStep h xs ys g
    → ListStep g ys zs k
    → ListStep h xs zs k
ListStep-trans h g k xs ys zs s t = record {
  chain = t.chain;
  frame = λ x o. t.frame x (s.outside x o) ∙ s.frame x o;
  outside = λ x o. t.outside x (s.outside x o);
  state =
      (t.state.0 ∙ s.state.0, t.state.1 ∙ s.state.1, t.state.2 ∙ s.state.2, t.state.3 ∙ s.state.3);
}

-- A list is empty or ends in a block.
Snoc-cases : (bs : List Block) → (bs ≡ []) ⊎ ((xs : List Block) × (l : Block) × (bs ≡ xs ++ l ∷ []))
Snoc-cases [] = inl refl
Snoc-cases (b ∷ bs) = elim (Snoc-cases bs) [
  | inl e ↦ inr ([], b, ap (λ (t : List Block). b ∷ t) e)
  | inr (xs, l, e) ↦ inr (b ∷ xs, l, ap (λ (t : List Block). b ∷ t) e)
]

last_or-snoc : (d : ℕ) (xs : List Block) (l : Block) → last_or d (xs ++ l ∷ []) ≡ l.0
last_or-snoc d [] l = refl
last_or-snoc d (x ∷ xs) l = last_or-snoc x.0 xs l

-- The scan of kfree for the predecessor finds the one that the insertion found.
pub before-inserted :
    (c : Block) (bs : List Block) → before (is_below c.0) (inserted c bs) ≡ before (is_below c.0) bs
before-inserted c [] = ground arith
before-inserted c (b ∷ bs) = ground (arith, before-inserted c bs)

pub before-below : (c : Block) (bs : List Block) → All (λ b. b.0 < c.0) (before (is_below c.0) bs)
before-below c [] = tt
before-below c (b ∷ bs) = ground (arith, before-below c bs)

pub released-after :
    (c : Block) (bs : List Block)
    → released c (after (is_below c.0) bs) ≡ join c (after (is_below c.0) bs)
unfolding released
released-after c [] = refl
released-after c (b ∷ bs) = ground (arith, released-after c bs)

-- Both joins, on a list where `c` follows the blocks below it.
module _ (h : Heap) (c : Block) (pre post : List Block) (lo hi : ℕ)
    (chain : Seg h.header h.free_list_head (pre ++ c ∷ post) 0)
    (ordered : Within lo (pre ++ c ∷ post) hi) (word : h.free_ram_end < 2 ^ 32)
    (room : hi ≤ h.free_ram_end) (below : All (λ b. b.0 < c.0) pre)
    (cut : before (is_below c.0) (pre ++ c ∷ post) ≡ pre)
    (tail : released c post ≡ join c post) where
  abbrev pub Joins : Heap → Type 0
  Joins g = ListStep h (pre ++ c ∷ post) (released c (pre ++ post)) g

  hi_word : hi < 2 ^ 32
  hi_word = omega arith

  first : pre ≡ [] → (g : Heap) × (coalesce (last_or 0 pre) c.0 h ≡ done tt g) × Joins g
  unfolding coalesce
  first e = (
    coalesce_next c.0 h,
    rw e,
    subst
        (λ (p : List Block).
          ListStep h (p ++ c ∷ post) (released c (p ++ post)) (coalesce_next c.0 h))
        (sym e)
        (subst (λ (l : List Block). ListStep h (c ∷ post) l (coalesce_next c.0 h)) (sym tail)
          (coalesce_next-ListStep h [] c post lo hi
            (subst (λ (p : List Block). Seg h.header h.free_list_head (p ++ c ∷ post) 0) e chain)
            (subst (λ (p : List Block). Within lo (p ++ c ∷ post) hi) e ordered) hi_word)),
  )

  module _ (xs : List Block) (l : Block) (e : pre ≡ xs ++ l ∷ []) where
    regroup : pre ++ c ∷ post ≡ xs ++ l ∷ c ∷ post
    regroup = rw (e, append_assoc)

    chain_at : Seg h.header h.free_list_head (xs ++ l ∷ c ∷ post) 0
    chain_at = subst (λ (p : List Block). Seg h.header h.free_list_head p 0) regroup chain

    ordered_at : Within lo (xs ++ l ∷ c ∷ post) hi
    ordered_at = subst (λ (p : List Block). Within lo p hi) regroup ordered

    last : last_or 0 pre ≡ l.0
    last = rw (e, last_or-snoc)

    l_below : l.0 < c.0
    l_below = (All-split (λ b. b.0 < c.0) xs (l ∷ []) (subst (All (λ b. b.0 < c.0)) e below)).1.0

    l_some : (l.0 == 0) ≡ false
    l_some =
        let (m, s, t) = Seg-split h.header h.free_list_head 0 xs (l ∷ c ∷ post) chain_at in
        let n = t.1 in ground arith

    scan :
        locate (rounds h) c.0 0 h.free_list_head h
        ≡ some (l.0, first_or_null (after (is_below c.0) (pre ++ c ∷ post)))
    scan =
        locate-split (rounds h) c.0 0 h.free_list_head h (pre ++ c ∷ post) chain
          (omega (arith, length-Within lo hi (pre ++ c ∷ post) ordered))
        ∙ rw (cut, last)

    short : All (λ b. end b < c.0) xs
    short =
        let (mid, w, v) = Within-split lo hi xs (l ∷ c ∷ post) ordered_at in
        All-map {P = λ b. end b ≤ mid} xs (λ b k. omega (arith, v.0, l_below))
          (Within-ends lo mid xs w)

    released_at : released c (pre ++ post) ≡ xs ++ released c (l ∷ post)
    released_at = rw (e, append_assoc, released-append c xs (l ∷ post) short)

    module _ (touch : end l ≡ c.0) where
      touches : (end l == c.0) ≡ true
      touches = ground arith

      released-join : released c (pre ++ post) ≡ xs ++ join (merged l c) post
      unfolding released
      released-join = released_at ∙ rw (lt→ltb l.0 c.0 l_below, touches)

      Within-merged : Within lo (xs ++ merged l c ∷ post) hi
      Within-merged =
          let (mid, w, v) = Within-split lo hi xs (l ∷ c ∷ post) ordered_at in
          let same : end c ≡ end (merged l c) = omega arith in
          Within-append lo mid hi xs (merged l c ∷ post) w
            (v.0, subst (λ (k : ℕ). Within k post hi) same v.1.1)

      joined : Heap
      joined = join_heap h xs l c post lo hi chain_at ordered_at hi_word

      both : Joins (coalesce_next l.0 joined)
      unfolding joined
      both =
          subst
            (λ (p : List Block). ListStep h p (released c (pre ++ post)) (coalesce_next l.0 joined))
            (sym regroup)
            (subst
              (λ (p : List Block). ListStep h (xs ++ l ∷ c ∷ post) p (coalesce_next l.0 joined))
              (sym released-join)
              (ListStep-trans h joined (coalesce_next l.0 joined) (xs ++ l ∷ c ∷ post)
                (xs ++ merged l c ∷ post) (xs ++ join (merged l c) post) step
                (coalesce_next-ListStep joined xs (merged l c) post lo hi step.chain Within-merged
                  hi_word)))
        where
          step : ListStep h (xs ++ l ∷ c ∷ post) (xs ++ merged l c ∷ post) joined
          step = join-ListStep h xs l c post lo hi chain_at ordered_at hi_word

      behind_join : (g : Heap) × (coalesce (last_or 0 pre) c.0 h ≡ done tt g) × Joins g
      unfolding coalesce joined
      behind_join = (
        coalesce_next l.0 joined,
        rw (
          last,
          l_some,
          scan,
          l_some,
          try_coalesce-join h xs l c post lo hi chain_at ordered_at hi_word touch,
        ),
        both,
      )

    module _ (gap : end l ≢ c.0) where
      released_gap : released c (pre ++ post) ≡ pre ++ join c post
      unfolding released
      released_gap =
          let apart : (end l == c.0) ≡ false = ground arith in
          released_at ∙ rw (lt→ltb l.0 c.0 l_below, apart, tail, e, append_assoc)

      behind_gap : (g : Heap) × (coalesce (last_or 0 pre) c.0 h ≡ done tt g) × Joins g
      unfolding coalesce
      behind_gap = (
        coalesce_next c.0 h,
        rw (
          last,
          l_some,
          scan,
          l_some,
          try_coalesce-apart h xs l c post lo hi chain_at ordered_at hi_word gap,
        ),
        subst (λ (p : List Block). ListStep h (pre ++ c ∷ post) p (coalesce_next c.0 h))
            (sym released_gap) (coalesce_next-ListStep h pre c post lo hi chain ordered hi_word),
      )

    behind : (g : Heap) × (coalesce (last_or 0 pre) c.0 h ≡ done tt g) × Joins g
    behind = elim (ℕ_discrete (end l) c.0) [
      | yes touch ↦ behind_join touch
      | no gap ↦ behind_gap gap
    ]

  pub coalesce-Joins : (g : Heap) × (coalesce (last_or 0 pre) c.0 h ≡ done tt g) × Joins g
  coalesce-Joins = elim (Snoc-cases pre) [ inl e ↦ first e | inr (xs, l, e) ↦ behind xs l e ]
