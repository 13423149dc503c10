-- ===== src/Mem/Free.antt =====
-- kfree: the free list that a freed block leaves, with its neighbours joined.
pub mod Join
pub mod Coalesce
pub mod Kfree
use mboot.Prelude.{
  ℕ, ◌+◌, ◌≤◌, ◌<◌, ◌≡◌, ◌≢◌, refl, ◌⊎◌, List, [], ◌∷◌, ◌++◌, arith, ltb, ◌==◌, if◌then◌else◌,
}
use mboot.Mem.{header_size}
use mboot.Mem.Blocks.{Block, end, All, Within, Apart, before, after}
use mboot.Mem.Walk.{is_below}
use mboot.Mem.Layout.{Within-le}

-- Two adjacent blocks as one: the second header becomes payload.
abbrev pub merged : Block → Block → Block
merged b c = (b.0, b.1 + header_size + c.1)

abbrev pub join : Block → List Block → List Block
join c [] = c ∷ []
join c (d ∷ ds) = if end c == d.0 then merged c d ∷ ds else c ∷ d ∷ ds

-- The free list with block `c` returned: in address order, joined with the blocks that touch it.
unfoldable pub released : Block → List Block → List Block
released c [] = c ∷ []
released c (b ∷ bs) =
    if ltb b.0 c.0
    then if end b == c.0 then join (merged b c) bs else b ∷ released c bs
    else join c (b ∷ bs)

pub total : List Block → ℕ
total [] = 0
total (b ∷ bs) = header_size + b.1 + total bs

join-total : (c : Block) (bs : List Block) → total (join c bs) ≡ header_size + c.1 + total bs
unfolding total
join-total c [] = refl
join-total c (d ∷ ds) = ground arith

-- No byte is lost: the blocks with their headers take up what they took up before.
pub released-total :
    (c : Block) (bs : List Block) → total (released c bs) ≡ header_size + c.1 + total bs
unfolding released total
released-total c [] = refl
released-total c (b ∷ bs) =
    ground (arith, join-total (merged b c) bs, join-total c (b ∷ bs), released-total c bs)

Within-join :
    (c : Block) (lo hi : ℕ) (bs : List Block)
    → lo ≤ c.0
    → Within (end c) bs hi
    → Within lo (join c bs) hi
Within-join c lo hi [] le w = (le, w)
Within-join c lo hi (d ∷ ds) le w = ground arith

-- Blocks from `c` on that are apart from it lie behind it.
Within-raise :
    (c : Block) (lo hi : ℕ) (bs : List Block)
    → Within lo bs hi
    → All (Apart c) bs
    → c.0 ≤ lo
    → end c ≤ hi
    → Within (end c) bs hi
Within-raise c lo hi [] w apart le top = top
Within-raise c lo hi (b ∷ bs) w apart le top = (omega arith, w.1)

pub Within-released :
    (c : Block) (lo hi : ℕ) (bs : List Block)
    → Within lo bs hi
    → All (Apart c) bs
    → lo ≤ c.0
    → end c ≤ hi
    → Within lo (released c bs) hi
unfolding released
Within-released c lo hi [] w apart le top = (le, top)
Within-released c lo hi (b ∷ bs) w apart le top = ground (
  arith,
  Within-join (merged b c) lo hi bs,
  Within-raise c (end b) hi bs w.1 apart.1,
  Within-join c lo hi (b ∷ bs),
  Within-released c (end b) hi bs w.1 apart.1,
)

All-join :
    (d c : Block) (bs : List Block) → Apart d c → All (Apart d) bs → All (Apart d) (join c bs)
All-join d c [] p q = (p, tt)
All-join d c (b ∷ bs) p q = ground arith

pub Apart-released :
    (d c : Block) (bs : List Block) → Apart d c → All (Apart d) bs → All (Apart d) (released c bs)
unfolding released
Apart-released d c [] p q = (p, tt)
Apart-released d c (b ∷ bs) p q =
    ground (arith, All-join d (merged b c) bs, All-join d c (b ∷ bs), Apart-released d c bs p)

-- Blocks that end short of `c` stay in front of it.
pub released-append :
    (c : Block) (xs ys : List Block)
    → All (λ b. end b < c.0) xs
    → released c (xs ++ ys) ≡ xs ++ released c ys
unfolding released
released-append c [] ys p = refl
released-append c (b ∷ xs) ys p = ground (arith, released-append c xs ys)
