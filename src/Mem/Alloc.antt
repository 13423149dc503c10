-- ===== src/Mem/Alloc.antt =====
-- kmalloc: what an allocation is, and the step that ends both of its paths.
pub mod Reuse
pub mod Bump
pub mod Kmalloc
pub mod Wrap
use mathlib.Core.Path.{subst}
use mboot.Prelude.{
  ℕ, zero, suc, ◌+◌, ◌-◌, ◌*◌, ◌/◌, ◌%◌, ◌^◌, ◌≤◌, ◌<◌, ◌≡◌, ◌≢◌, refl, sym, ap, ◌∙◌, ◌⊎◌, inl, inr,
  true, false, List, [], ◌∷◌, ◌++◌, arith, ltb, leb, ◌==◌,
}
use native.Mathlib.Decide.{ℕ_discrete}
use mboot.Mem.{
  Header, Heap, Run, done, halted, out_of_fuel, write, header_size, memset, take_block,
  try_split_block, hand_out, bump, kmalloc, find_free_block_and_remove, ◌>>=◌,
}
use mboot.Mem.Blocks.{
  Block, end, All, All-map, All-split, All-append, Seg, Within, Apart, PairwiseApart, last_or,
  Outside, before, after, before-append-after, length-Within, Seg-frame, Seg-split,
}
use mboot.Mem.Walk.{too_small, Found}
use mboot.Mem.Insert.{Within-split, Within-append, Apart-Outside}
use mboot.Mem.Layout.{IsLive, IsHeap, align_up-eight, Within-Apart, Within-remove, Apart-inside}
use mboot.Mem.Take.{
  taken, taken-Seg, taken-size, taken-state, taken-header, find-Found, before-small, after-fits,
}
use mboot.Mem.Split.{SplitDone, try_split_block-SplitDone}

-- memset fills its range and nothing else.
memset-out :
    (n p c : ℕ) (f : ℕ → ℕ) (x : ℕ)
    → p + n < 2 ^ 32
    → (x < p) ⊎ (p + n ≤ x)
    → memset p c n f x ≡ f x
unfolding memset
memset-out zero p c f x room side = refl
memset-out (suc n) p c f x room side =
    let next : (p + 1) % 2 ^ 32 ≡ p + 1 = omega arith in
    rw (next, memset-out n (p + 1) c (write f p c) x (omega arith) (ground arith)) (ground arith)

memset-in :
    (n p c : ℕ) (f : ℕ → ℕ) (x : ℕ) → p + n < 2 ^ 32 → p ≤ x → x < p + n → memset p c n f x ≡ c
unfolding memset
memset-in zero p c f x room lo hi = absurd (omega arith)
memset-in (suc n) p c f x room lo hi =
    let next : (p + 1) % 2 ^ 32 ≡ p + 1 = omega arith in
    elim (ℕ_discrete p x) [
      | yes e ↦
          rw (next, memset-out n (p + 1) c (write f p c) x (omega arith) (inl (omega arith)))
            (ground arith)
      | no ne ↦
          rw (next, memset-in n (p + 1) c (write f p c) x (omega arith) (omega arith) (omega arith))
    ]

IsHeap-byte :
    (g : Heap) (f : ℕ → ℕ) (free live : List Block)
    → IsHeap g free live
    → IsHeap (record g { byte = f }) free live
IsHeap-byte g f free live heap = record {
  chain = heap.chain;
  ordered = heap.ordered;
  used = heap.used;
  nonnull = heap.nonnull;
  lives =
      All-map {P = IsLive g free} live
        (λ b l. record { size = l.size; above = l.above; below = l.below; apart = l.apart })
        heap.lives;
  apart = heap.apart;
}

-- A successful allocation: the block at `p - 12` joins the live ones, its payload is zeroed, and
-- no other byte is changed.
pub record Allocation (h : Heap) (live : List Block) (want p : ℕ) (g : Heap) : Type 0 where
  pub kept : ℕ
  pub free : List Block
  pub enough : want ≤ kept
  pub behind : header_size ≤ p
  pub heap : IsHeap g free ((p - header_size, kept) ∷ live)
  pub zeroed : (x : ℕ) → p ≤ x → x < p + want → g.byte x ≡ 0
  pub untouched : (x : ℕ) → (x < p) ⊎ (p + want ≤ x) → g.byte x ≡ h.byte x
  pub ram : (g.free_ram ≡ h.free_ram) × (g.free_ram_end ≡ h.free_ram_end)

-- Every outcome of kmalloc: it halts only if no free block is large enough and the bump pointer
-- has no room, and it never runs out of rounds.
abbrev pub Allocated : Heap → List Block → List Block → ℕ → Run ℕ → Type 0
Allocated h free live want (done p g) = Allocation h live want p g
Allocated h free live want halted =
    All (λ b. b.1 < want) free × (h.free_ram_end < (h.bump_next + 7) / 8 * 8 + header_size + want)
Allocated h free live want out_of_fuel = ⊥

-- The last step of both paths.
pub hand_out-Allocation :
    (h g : Heap) (b : Block) (all free live : List Block) (want : ℕ)
    → IsHeap g free (b ∷ live)
    → want ≤ b.1
    → g.free_ram_end < 2 ^ 32
    → (g.byte ≡ h.byte) × (g.free_ram ≡ h.free_ram) × (g.free_ram_end ≡ h.free_ram_end)
    → Allocated h all live want (hand_out (b.0 + header_size) want g)
unfolding hand_out
hand_out-Allocation h g b all free live want heap fits word same = record {
  kept = b.1;
  free = free;
  enough = fits;
  behind = omega arith;
  heap =
      subst (λ (a : ℕ). IsHeap bytes_zeroed free ((a, b.1) ∷ live)) address
        (IsHeap-byte g (memset (b.0 + header_size) 0 want g.byte) free (b ∷ live) heap);
  zeroed = λ x lo hi. memset-in want (b.0 + header_size) 0 g.byte x room lo hi;
  untouched = λ x side.
      memset-out want (b.0 + header_size) 0 g.byte x room side ∙ ap (λ (f : ℕ → ℕ). f x) same.0;
  ram = (same.1, same.2);
}
  where
    address : b.0 ≡ b.0 + header_size - header_size
    address = omega arith

    bytes_zeroed : Heap
    bytes_zeroed = record g { byte = memset (b.0 + header_size) 0 want g.byte }

    room : b.0 + header_size + want < 2 ^ 32
    room = let l = heap.lives.0 in omega (arith, l.below, heap.used)
