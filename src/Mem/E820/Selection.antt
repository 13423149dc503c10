-- ===== src/Mem/E820/Selection.antt =====
-- The region of the memory map that init_alloc of stage2/mem.c selects for the heap.
use mboot.Prelude.{
  All, ℕ, ◌+◌, ◌^◌, ◌≤◌, ◌<◌, ◌≡◌, refl, sym, ap, ◌∙◌, ◌++◌, length, length-append, ◌⊎◌, inl, inr,
  ◌&&◌, List, [], ◌∷◌, arith, ltb, ◌==◌, if◌then◌else◌, get_or, Bool-cases,
}
use mathlib.Core.List.{append_assoc}
use mathlib.Core.Path.{subst}
use mboot.Mem.{Heap}
use mboot.Mem.Layout.{IsHeap}
use mboot.Mem.E820.{Entry, biggest_from, biggest_index, init_alloc}

get_or-length :
    (pre : List Entry) (e : Entry) (es : List Entry) (d : Entry)
    → get_or (pre ++ e ∷ es) (length pre) d ≡ e
get_or-length [] e es d = refl
get_or-length (x ∷ pre) e es d = get_or-length pre e es d

module _ (beyond : Entry) (all : List Entry) where
  at : ℕ → Entry
  at i = get_or all i beyond

  -- What the loop's result is at least as long as.
  abbrev Longest : ℕ → List Entry → ℕ → Type 0
  Longest best es r =
      ((at best).length ≤ (at r).length) × All (λ e. e.kind ≡ 1 → e.length ≤ (at r).length) es

  biggest_from-Longest :
      (i best : ℕ) (pre es : List Entry)
      → all ≡ pre ++ es
      → i ≡ length pre
      → Longest best es (biggest_from beyond all i best es)
  unfolding biggest_from at
  biggest_from-Longest i best pre [] whole here = (omega arith, tt)
  biggest_from-Longest i best pre (e ∷ es) whole here =
      let here_is : get_or all i beyond ≡ e = rw (whole, here) (get_or-length pre e es beyond) in
      let rest = λ (b : ℕ).
        biggest_from-Longest (i + 1) b (pre ++ e ∷ []) es
          (whole ∙ sym (append_assoc pre (e ∷ []) es))
          (omega (arith, length-append pre (e ∷ []))) in
      let chosen =
        if (e.kind == 1) && ltb (get_or all best beyond).length e.length then i else best in
      let (p, q) = rest chosen in
      let better : ((get_or all best beyond).length ≤ (get_or all chosen beyond).length)
          × (e.kind ≡ 1 → e.length ≤ (get_or all chosen beyond).length) =
        elim (Bool-cases ((e.kind == 1) && ltb (get_or all best beyond).length e.length)) [
          | inl longer ↦ rw (longer, here_is) (ground arith, λ k. omega arith)
          | inr shorter ↦ rw shorter (omega arith, λ k. ground arith)
        ] in
      (omega (arith, better.0), ((λ k. omega (arith, better.1 k)), q))

  -- The loop's result is what it began with, or a usable entry of the map.
  biggest_from-usable :
      (i best : ℕ) (pre es : List Entry)
      → all ≡ pre ++ es
      → i ≡ length pre
      → let r = biggest_from beyond all i best es in
        (r ≡ best) ⊎ ((r < length all) × ((at r).kind ≡ 1))
  unfolding biggest_from at
  biggest_from-usable i best pre [] whole here = inl refl
  biggest_from-usable i best pre (e ∷ es) whole here =
      let here_is : get_or all i beyond ≡ e = rw (whole, here) (get_or-length pre e es beyond) in
      let inside : i < length all =
        omega (arith, here, ap length whole, length-append pre (e ∷ es)) in
      let test = (e.kind == 1) && ltb (get_or all best beyond).length e.length in
      let step = λ (b : ℕ).
        biggest_from-usable (i + 1) b (pre ++ e ∷ []) es
          (whole ∙ sym (append_assoc pre (e ∷ []) es))
          (omega (arith, here, length-append pre (e ∷ []))) in
      elim (Bool-cases test) [
        | inl longer ↦
            subst
              (λ c.
                let r = biggest_from beyond all (i + 1) (if c then i else best) es in
                (r ≡ best) ⊎ ((r < length all) × ((get_or all r beyond).kind ≡ 1)))
              (sym longer)
              (taken i (biggest_from beyond all (i + 1) i es) best inside
                (ap (λ (x : Entry). x.kind) here_is ∙ ground (arith, longer)) (step i))
        | inr shorter ↦
            subst
              (λ c.
                let r = biggest_from beyond all (i + 1) (if c then i else best) es in
                (r ≡ best) ⊎ ((r < length all) × ((get_or all r beyond).kind ≡ 1)))
              (sym shorter) (step best)
      ]
    where
      taken :
          (i r best : ℕ)
          → i < length all
          → (get_or all i beyond).kind ≡ 1
          → (r ≡ i) ⊎ ((r < length all) × ((get_or all r beyond).kind ≡ 1))
          → (r ≡ best) ⊎ ((r < length all) × ((get_or all r beyond).kind ≡ 1))
      taken i r best inside usable (inl e) =
          inr (omega (arith, e, inside), ap (λ n. (get_or all n beyond).kind) e ∙ usable)
      taken i r best inside usable (inr other) = inr other

-- What init_alloc selects among the entries of a map: an entry of it, a usable one or the first, and
-- at least as long as every usable one.
abbrev pub Selected : List Entry → ℕ → Entry → Type 0
Selected es i e =
    (i < length es) × ((e.kind ≡ 1) ⊎ (i ≡ 0)) × All (λ x. x.kind ≡ 1 → x.length ≤ e.length) es

biggest_index-Selected :
    (beyond e : Entry) (es : List Entry)
    → let i = biggest_index beyond (e ∷ es) in Selected (e ∷ es) i (get_or (e ∷ es) i beyond)
unfolding biggest_index at
biggest_index-Selected beyond e es = elim (biggest_from-usable beyond all 0 0 [] all refl refl) [
  | inl first ↦ (omega (arith, first), inr first, longest)
  | inr (inside, usable) ↦ (inside, inl usable, longest)
]
  where
    all : List Entry
    all = e ∷ es

    longest :
        All (λ x. x.kind ≡ 1 → x.length ≤ (get_or all (biggest_index beyond all) beyond).length) all
    longest = (biggest_from-Longest beyond all 0 0 [] all refl refl).1

-- When the region that init_alloc selects of a memory map that is not empty lies above address 0
-- and ends below 4 GiB, and the free list is empty: the region is an entry of the map, a usable one
-- or the first, at least as long as every usable one, the free memory goes from its base to its
-- end, and the heap is well formed, with no block.
pub init_alloc-IsHeap :
    (beyond e : Entry) (es : List Entry) (h : Heap)
    → h.free_list_head ≡ 0
    → let i = biggest_index beyond (e ∷ es) in
      let chosen = get_or (e ∷ es) i beyond in
      0 < chosen.base
      → chosen.base + chosen.length < 2 ^ 32
      → let h' = init_alloc beyond (e ∷ es) h in
        Selected (e ∷ es) i chosen
        × (h'.free_ram ≡ chosen.base)
        × (h'.free_ram_end ≡ chosen.base + chosen.length)
        × IsHeap h' [] []
unfolding init_alloc
init_alloc-IsHeap beyond e es h empty low high = (
  biggest_index-Selected beyond e es,
  omega arith,
  omega arith,
  record {
    chain = empty;
    ordered = omega arith;
    used = omega arith;
    nonnull = omega arith;
    lives = tt;
    apart = tt;
  },
)
