-- ===== src/Fat16/Directory/Entries.antt =====
-- Directory entries as bytes, and what dir_of reads from them.
use mboot.Prelude.{
  ℕ, zero, suc, ◌+◌, ◌/◌, ◌%◌, ◌^◌, ◌≤◌, ◌≡◌, ◌≢◌, ap, ◌∙◌, List, [], ◌∷◌, ◌++◌, arith, take,
  length, length-append, append_assoc,
}
use mboot.Fat16.Volume.{byte_at, word_at, dword_at}
use mboot.Fat16.Names.{Dir, dir_of}
use mboot.Fat16.Names.Short.{pad, IsField, length-pad, take-first}

-- A short entry: its base begins with `first`; `times` are the 14 bytes between the attributes and the
-- cluster.
pub record ShortEntry : Type 0 where
  pub first : ℕ
  pub more : List ℕ
  pub ext : List ℕ
  pub attr : ℕ
  pub times : List ℕ
  pub cluster : ℕ
  pub size : ℕ

abbrev pub base_of : ShortEntry → List ℕ
base_of e = e.first ∷ e.more

pub record IsShort (e : ShortEntry) : Type 0 where
  pub base : IsField (base_of e)
  pub kept : e.first ≢ 0xE5
  pub short : length (base_of e) ≤ 8
  pub ext : IsField e.ext
  pub ext_short : length e.ext ≤ 3
  pub attr : e.attr ≢ 0x0F
  pub times : length e.times ≡ 14

-- The number of the first cluster and the size in little-endian order.
abbrev pub place_bytes : (cluster size : ℕ) → List ℕ
place_bytes cluster size =
    (cluster % 2 ^ 8)
    ∷ (cluster / 2 ^ 8)
    ∷ (size % 2 ^ 8)
    ∷ (size / 2 ^ 8 % 2 ^ 8)
    ∷ (size / 2 ^ 16 % 2 ^ 8)
    ∷ (size / 2 ^ 24)
    ∷ []

abbrev pub short_bytes : ShortEntry → List ℕ
short_bytes e =
    (pad 8 (base_of e) ++ pad 3 e.ext) ++ ((e.attr ∷ e.times) ++ place_bytes e.cluster e.size)

-- The entry as the kernel reads it.
abbrev pub listed : ShortEntry → Dir
listed e = record {
  name = pad 8 (base_of e) ++ pad 3 e.ext;
  attr = e.attr;
  fst_clus_lo = e.cluster;
  file_size = e.size;
}

byte_behind : (xs ys : List ℕ) (n i : ℕ) → length xs ≡ n → byte_at (xs ++ ys) (n + i) ≡ byte_at ys i
byte_behind [] ys n i h = ap (byte_at ys) (omega (arith, h))
byte_behind (x ∷ xs) ys zero i h = absurd (omega (arith, h))
byte_behind (x ∷ xs) ys (suc n) i h =
    ap (byte_at (x ∷ (xs ++ ys))) {x = suc n + i} {y = suc (n + i)} (omega arith)
    ∙ byte_behind xs ys n i (omega (arith, h))

module _ (e : ShortEntry) (s : IsShort e) where
  length-names : length (pad 8 (base_of e) ++ pad 3 e.ext) ≡ 11
  length-names = omega (
    arith,
    length-append (pad 8 (base_of e)) (pad 3 e.ext),
    length-pad 8 (base_of e) s.short,
    length-pad 3 e.ext s.ext_short,
  )

  pub length-short_bytes : length (short_bytes e) ≡ 32
  length-short_bytes = omega (
    arith,
    length-append (pad 8 (base_of e) ++ pad 3 e.ext)
        ((e.attr ∷ e.times) ++ place_bytes e.cluster e.size),
    length-append (e.attr ∷ e.times) (place_bytes e.cluster e.size),
    length-names,
    s.times,
  )

  regroup :
      (rest : List ℕ)
      → short_bytes e ++ rest
        ≡ (pad 8 (base_of e) ++ pad 3 e.ext)
          ++ ((e.attr ∷ e.times) ++ (place_bytes e.cluster e.size ++ rest))
  regroup rest =
      append_assoc (pad 8 (base_of e) ++ pad 3 e.ext)
        ((e.attr ∷ e.times) ++ place_bytes e.cluster e.size) rest
      ∙ ap (λ l. (pad 8 (base_of e) ++ pad 3 e.ext) ++ l)
          (append_assoc (e.attr ∷ e.times) (place_bytes e.cluster e.size) rest)

  -- A byte of the last six fields.
  placed_byte :
      (rest : List ℕ) (i : ℕ)
      → byte_at (short_bytes e ++ rest) (11 + (15 + i))
        ≡ byte_at (place_bytes e.cluster e.size ++ rest) i
  placed_byte rest i =
      ap (λ l. byte_at l (11 + (15 + i))) (regroup rest)
      ∙ byte_behind (pad 8 (base_of e) ++ pad 3 e.ext)
          ((e.attr ∷ e.times) ++ (place_bytes e.cluster e.size ++ rest)) 11 (15 + i) length-names
      ∙ byte_behind (e.attr ∷ e.times) (place_bytes e.cluster e.size ++ rest) 15 i
          (omega (arith, s.times))

  attr-byte : (rest : List ℕ) → byte_at (short_bytes e ++ rest) 11 ≡ e.attr
  attr-byte rest =
      ap (λ l. byte_at l 11) (regroup rest)
      ∙ byte_behind (pad 8 (base_of e) ++ pad 3 e.ext)
          ((e.attr ∷ e.times) ++ (place_bytes e.cluster e.size ++ rest)) 11 0 length-names

  cluster-word : (rest : List ℕ) → word_at (short_bytes e ++ rest) 26 ≡ e.cluster
  cluster-word rest = omega (arith, placed_byte rest 0, placed_byte rest 1)

  size-dword : (rest : List ℕ) → dword_at (short_bytes e ++ rest) 28 ≡ e.size
  size-dword rest =
      omega (arith, placed_byte rest 2, placed_byte rest 3, placed_byte rest 4, placed_byte rest 5)

  pub dir_of-short_bytes : (rest : List ℕ) → dir_of (short_bytes e ++ rest) ≡ listed e
  unfolding dir_of
  dir_of-short_bytes rest =
      ap
        (λ l.
          read l (byte_at (short_bytes e ++ rest) 11) (word_at (short_bytes e ++ rest) 26)
            (dword_at (short_bytes e ++ rest) 28))
        (ap (take 11) (regroup rest)
          ∙ take-first 11 (pad 8 (base_of e) ++ pad 3 e.ext)
              ((e.attr ∷ e.times) ++ (place_bytes e.cluster e.size ++ rest)) length-names)
      ∙ ap
          (λ (a : ℕ).
            read names a (word_at (short_bytes e ++ rest) 26) (dword_at (short_bytes e ++ rest) 28))
          (attr-byte rest)
      ∙ ap (λ (c : ℕ). read names e.attr c (dword_at (short_bytes e ++ rest) 28))
          (cluster-word rest)
      ∙ ap (read names e.attr e.cluster) (size-dword rest)
    where
      names : List ℕ
      names = pad 8 (base_of e) ++ pad 3 e.ext

      read : List ℕ → ℕ → ℕ → ℕ → Dir
      read l a c n = record { name = l; attr = a; fst_clus_lo = c; file_size = n }
