-- ===== src/Mem/E820.antt =====
-- The BIOS memory map: init_alloc, calculate_total_size and check_overlaps of stage2/mem.c.
pub mod Selection
use mboot.Prelude.{
  All, ℕ, ◌+◌, ◌%◌, ◌^◌, ◌≤◌, ◌<◌, ◌≡◌, refl, sym, ap, ◌∙◌, ◌++◌, length, length-append, ◌⊎◌, inl,
  inr, Bool, ◌&&◌, List, [], ◌∷◌, arith, ltb, ◌==◌, if◌then◌else◌, get_or, Bool-cases,
}
use mboot.Mem.{Heap}

-- `e820_entry_t`, without the attributes that the code does not read.
pub record Entry : Type 0 where
  pub base : ℕ
  pub length : ℕ
  pub kind : ℕ

-- uint64_t base + length
abbrev pub entry_end : Entry → ℕ
entry_end e = (e.base + e.length) % 2 ^ 64

overlap : Entry → Entry → Bool
overlap a b = ltb a.base (entry_end b) && ltb b.base (entry_end a)

overlaps_with : Entry → List Entry → ℕ
overlaps_with a [] = 0
overlaps_with a (b ∷ bs) = (if overlap a b then 1 else 0) + overlaps_with a bs

-- The number that check_overlaps reports: pairs of entries, each counted once.
pub check_overlaps : List Entry → ℕ
unfolding overlap overlaps_with
check_overlaps [] = 0
check_overlaps (a ∷ rest) = overlaps_with a rest + check_overlaps rest

total_from : ℕ → List Entry → ℕ
total_from total [] = total
total_from total (e ∷ es) =
    total_from (if e.kind == 1 then (total + e.length) % 2 ^ 64 else total) es

pub calculate_total_size : List Entry → ℕ
unfolding total_from
calculate_total_size es = total_from 0 es

-- The loop of init_alloc: `es` is the map from index `i` on, `beyond` what memory holds behind it.
pub biggest_from : Entry → List Entry → ℕ → ℕ → List Entry → ℕ
biggest_from beyond all i best [] = best
biggest_from beyond all i best (e ∷ es) =
    biggest_from beyond all (i + 1)
      (if (e.kind == 1) && ltb (get_or all best beyond).length e.length then i else best) es

unfoldable pub biggest_index : Entry → List Entry → ℕ
unfolding biggest_from
biggest_index beyond all = biggest_from beyond all 0 0 all

pub init_alloc : Entry → List Entry → Heap → Heap
init_alloc beyond entries h =
    let chosen = get_or entries (biggest_index beyond entries) beyond in
    record h {
      free_ram = chosen.base % 2 ^ 32;
      free_ram_end = entry_end chosen % 2 ^ 32;
      bump_next = chosen.base % 2 ^ 32;
    }

-- Two regions share no address.
abbrev pub Disjoint : Entry → Entry → Type 0
Disjoint a b = (entry_end b ≤ a.base) ⊎ (entry_end a ≤ b.base)

abbrev pub PairwiseDisjoint : List Entry → Type 0
PairwiseDisjoint [] = Unit
PairwiseDisjoint (e ∷ es) = All (Disjoint e) es × PairwiseDisjoint es

overlaps_with-zero : (a : Entry) (es : List Entry) → overlaps_with a es ≡ 0 → All (Disjoint a) es
unfolding overlaps_with overlap
overlaps_with-zero a [] h = tt
overlaps_with-zero a (b ∷ bs) h = elim (Bool-cases (overlap a b)) [
  | inl yes_ ↦ absurd (ground arith)
  | inr no_ ↦ (ground arith, overlaps_with-zero a bs (ground arith))
]

overlaps_with-Disjoint :
    (a : Entry) (es : List Entry) → All (Disjoint a) es → overlaps_with a es ≡ 0
unfolding overlaps_with overlap
overlaps_with-Disjoint a [] p = refl
overlaps_with-Disjoint a (b ∷ bs) p = ground (arith, overlaps_with-Disjoint a bs p.1)

-- check_overlaps reports none exactly when no two entries share an address.
check_overlaps-zero :
    (es : List Entry)
    → (check_overlaps es ≡ 0 → PairwiseDisjoint es) × (PairwiseDisjoint es → check_overlaps es ≡ 0)
unfolding check_overlaps
check_overlaps-zero [] = (λ h. tt, λ p. refl)
check_overlaps-zero (a ∷ es) =
    let rest = check_overlaps-zero es in
    (
      λ h. (overlaps_with-zero a es (omega arith), rest.0 (omega arith)),
      λ p. omega (arith, overlaps_with-Disjoint a es p.0, rest.1 p.1),
    )
