-- ===== src/Mem/Blocks.antt =====
-- What a free list stands for: blocks in address order, and how they lie in memory.
use mboot.Prelude.{
  ℕ, ◌+◌, ◌≤◌, ◌<◌, ◌≡◌, ◌≢◌, refl, ◌⊎◌, Bool, true, List, [], ◌∷◌, ◌++◌, arith, length,
  if◌then◌else◌,
}
pub use mboot.Prelude.{All, All-append, All-split, All-map}
use mboot.Mem.{Header, header_size}

-- address and payload size
abbrev pub Block : Type 0
Block = ℕ × ℕ

-- the first address behind a block
abbrev pub end : Block → ℕ
end (a, s) = a + header_size + s

-- From `p` the `next` pointers lead through free headers of the listed blocks to `q`.
abbrev pub Seg : (ℕ → Header) → ℕ → List Block → ℕ → Type 0
Seg f p [] q = p ≡ q
Seg f p ((a, s) ∷ bs) q =
    (p ≡ a) × (a ≢ 0) × ((f a).size ≡ s) × ((f a).free ≡ true) × Seg f (f a).next bs q

-- The blocks lie between `lo` and `hi`, ascending and disjoint.
abbrev pub Within : ℕ → List Block → ℕ → Type 0
Within lo [] hi = lo ≤ hi
Within lo (b ∷ bs) hi = (lo ≤ b.0) × Within (end b) bs hi

-- Two blocks share no byte.
abbrev pub Apart : Block → Block → Type 0
Apart b c = (end b ≤ c.0) ⊎ (end c ≤ b.0)

abbrev pub PairwiseApart : List Block → Type 0
PairwiseApart [] = Unit
PairwiseApart (b ∷ bs) = All (Apart b) bs × PairwiseApart bs

-- the address of the last block, or `d`
abbrev pub last_or : ℕ → List Block → ℕ
last_or d [] = d
last_or d ((a, _) ∷ bs) = last_or a bs

abbrev pub Outside : ℕ → List Block → Type 0
Outside x bs = All (λ b. x ≢ b.0) bs

-- The list up to the first block that fails a test, and from there on.
abbrev pub before : (Block → Bool) → List Block → List Block
before test [] = []
before test (b ∷ bs) = if test b then b ∷ before test bs else []

abbrev pub after : (Block → Bool) → List Block → List Block
after test [] = []
after test (b ∷ bs) = if test b then after test bs else b ∷ bs

pub before-append-after :
    (test : Block → Bool) (bs : List Block) → before test bs ++ after test bs ≡ bs
before-append-after test [] = refl
before-append-after test (b ∷ bs) = ground (arith, before-append-after test bs)

abbrev pub first_or_null : List Block → ℕ
first_or_null [] = 0
first_or_null ((a, _) ∷ bs) = a

module _ (f : ℕ → Header) where
  pub Seg-append :
      (p m q : ℕ) (xs ys : List Block) → Seg f p xs m → Seg f m ys q → Seg f p (xs ++ ys) q
  Seg-append p m q [] ys s t = rw s t
  Seg-append p m q ((a, _) ∷ xs) ys (e, n, z, r, s) t =
      (e, n, z, r, Seg-append (f a).next m q xs ys s t)

  pub Seg-split :
      (p q : ℕ) (xs ys : List Block) → Seg f p (xs ++ ys) q → (m : ℕ) × Seg f p xs m × Seg f m ys q
  Seg-split p q [] ys s = (p, refl, s)
  Seg-split p q ((a, _) ∷ xs) ys (e, n, z, r, s) =
      let (m, t, u) = Seg-split (f a).next q xs ys s in (m, (e, n, z, r, t), u)

  pub first_of_Seg : (p : ℕ) (xs : List Block) → Seg f p xs 0 → p ≡ first_or_null xs
  first_of_Seg p [] s = s
  first_of_Seg p (x ∷ xs) s = s.0

  -- A segment survives a change of headers outside it.
  pub Seg-frame :
      (g : ℕ → Header) (p q : ℕ) (xs : List Block)
      → Seg f p xs q
      → All (λ b. g b.0 ≡ f b.0) xs
      → Seg g p xs q
  Seg-frame g p q [] s same = s
  Seg-frame g p q ((a, _) ∷ xs) (e, n, z, r, s) (same, others) =
      (e, n, rw same z, rw same r, rw same (Seg-frame g (f a).next q xs s others))

pub length-Within : (lo hi : ℕ) (bs : List Block) → Within lo bs hi → lo + length bs ≤ hi
length-Within lo hi [] w = omega arith
length-Within lo hi ((a, s) ∷ bs) w = omega (arith, length-Within (end (a, s)) hi bs w.1)

-- An address below a block in order is none of the blocks.
pub Within-Outside : (x lo hi : ℕ) (bs : List Block) → x < lo → Within lo bs hi → Outside x bs
Within-Outside x lo hi [] h w = tt
Within-Outside x lo hi (b ∷ bs) h w =
    (omega arith, Within-Outside x (end b) hi bs (omega arith) w.1)
