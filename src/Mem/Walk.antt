-- ===== src/Mem/Walk.antt =====
-- The walks of the free list and its links: where a loop stops, and what a changed link does.
use mboot.Prelude.{
  ℕ, zero, suc, ◌≤◌, ◌<◌, ◌≡◌, ◌≢◌, refl, sym, inl, inr, Bool, not, some, List, [], ◌∷◌, arith, ltb,
  leb, length, Bool-cases,
}
use mathlib.Core.Path.{subst}
use mboot.Mem.{Header, Heap, Run, done, write, set_link, set_next, take_block, find_loop, locate}
use mboot.Mem.Blocks.{Block, end, Seg, Within, last_or, Outside, before, after, first_or_null}

-- Below an address, and too small for a request.
abbrev pub is_below : ℕ → Block → Bool
is_below bound b = ltb b.0 bound

abbrev pub too_small : ℕ → Block → Bool
too_small want b = not (leb want b.1)

-- The walk to an address stops between the blocks below it and the others.
pub locate-split :
    (k bound prev p : ℕ) (h : Heap) (bs : List Block)
    → Seg h.header p bs 0
    → length bs < k
    → locate k bound prev p h
      ≡ some (last_or prev (before (is_below bound) bs), first_or_null (after (is_below bound) bs))
unfolding locate
locate-split zero bound prev p h bs s fuel = absurd (omega arith)
locate-split (suc k) bound prev p h [] s fuel = ground arith
locate-split (suc k) bound prev p h ((a, t) ∷ bs) (e, n, z, r, s) fuel =
    ground (arith, locate-split k bound a (h.header a).next h bs s (omega arith))

-- What the first-fit search returns, by the list from the first large enough block on.
abbrev pub Found : Heap → ℕ → List Block → Run ℕ
Found h prev [] = done 0 h
Found h prev ((a, t) ∷ bs) = done a (take_block prev a h)

pub find_loop-Found :
    (k want prev p : ℕ) (h : Heap) (bs : List Block)
    → Seg h.header p bs 0
    → length bs < k
    → find_loop k want prev p h
      ≡ Found h (last_or prev (before (too_small want) bs)) (after (too_small want) bs)
unfolding find_loop
find_loop-Found zero want prev p h bs s fuel = absurd (omega arith)
find_loop-Found (suc k) want prev p h [] s fuel = ground arith
find_loop-Found (suc k) want prev p h ((a, t) ∷ bs) (e, n, z, r, s) fuel =
    elim (Bool-cases (leb want t)) [
      | inl fits ↦ ground arith
      | inr misses ↦ ground (arith, find_loop-Found k want a (h.header a).next h bs s (omega arith))
    ]

last-le : (bs : List Block) (b : Block) (lo hi : ℕ) → Within lo (b ∷ bs) hi → lo ≤ last_or b.0 bs
last-le [] b lo hi w = w.0
last-le (c ∷ bs) b lo hi w = omega (arith, last-le bs c (end b) hi w.1)

-- A new `next` in the last header of a segment, whose addresses ascend.
relink :
    (f : ℕ → Header) (p q v : ℕ) (b : Block) (bs : List Block) (lo hi : ℕ)
    → Seg f p (b ∷ bs) q
    → Within lo (b ∷ bs) hi
    → Seg (write f (last_or b.0 bs) (record (f (last_or b.0 bs)) { next = v })) p (b ∷ bs) v
relink f p q v b [] lo hi s w = ground arith
relink f p q v b (c ∷ bs) lo hi (e, n, z, r, s) w =
    (e, n, rw same z, rw same r, rw same (relink f (f b.0).next q v c bs (end b) hi s w.1))
  where
    last : ℕ
    last = last_or c.0 bs

    same : write f last (record (f last) { next = v }) b.0 ≡ f b.0
    same = ground (arith, last-le bs c (end b) hi w.1)

Outside-last : (x : ℕ) (b : Block) (bs : List Block) → Outside x (b ∷ bs) → x ≢ last_or b.0 bs
Outside-last x b [] out = out.0
Outside-last x b (c ∷ bs) out = Outside-last x c bs out.1

last-nonzero :
    (f : ℕ → Header) (p q : ℕ) (b : Block) (bs : List Block)
    → Seg f p (b ∷ bs) q
    → last_or b.0 bs ≢ 0
last-nonzero f p q b [] s = s.1
last-nonzero f p q b (c ∷ bs) (e, n, z, r, s) = last-nonzero f (f b.0).next q c bs s

set_link-some : (prev v : ℕ) (h : Heap) → prev ≢ 0 → set_link prev v h ≡ set_next prev v h
unfolding set_link
set_link-some prev v h n = ground arith

module _ (h : Heap) (v : ℕ) where
  -- `set_link` makes the list lead to `v` behind the blocks before the change.
  pub set_link-Seg :
      (pre : List Block) (q lo hi : ℕ)
      → Seg h.header h.free_list_head pre q
      → Within lo pre hi
      → Seg
          (set_link (last_or 0 pre) v h).header
          (set_link (last_or 0 pre) v h).free_list_head
          pre
          v
  set_link-Seg [] q lo hi s w = unfold set_link in refl
  set_link-Seg (b ∷ bs) q lo hi s w =
      subst (λ (g : Heap). Seg g.header g.free_list_head (b ∷ bs) v)
        (sym (set_link-some (last_or b.0 bs) v h (last-nonzero h.header h.free_list_head q b bs s)))
        (relink h.header h.free_list_head q v b bs lo hi s w)

  -- It writes only in the header that it changes.
  pub set_link-Outside :
      (pre : List Block) (x : ℕ)
      → Outside x pre
      → (set_link (last_or 0 pre) v h).header x ≡ h.header x
  unfolding set_link
  set_link-Outside [] x out = refl
  set_link-Outside (b ∷ bs) x out = ground (arith, Outside-last x b bs out)

  -- It keeps the size and the flag of every header, and the rest of the state.
  pub set_link-fields :
      (prev x : ℕ)
      → (((set_link prev v h).header x).size ≡ (h.header x).size)
        × (((set_link prev v h).header x).free ≡ (h.header x).free)
  unfolding set_link
  set_link-fields prev x = ground arith

  pub set_link-state :
      (prev : ℕ)
      → let g = set_link prev v h in
        (g.byte ≡ h.byte)
        × (g.bump_next ≡ h.bump_next)
        × (g.free_ram ≡ h.free_ram)
        × (g.free_ram_end ≡ h.free_ram_end)
  unfolding set_link
  set_link-state prev = ground arith
