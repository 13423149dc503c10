-- ===== src/Fat16/Disk/Slice.antt =====
-- read_bytes gives the bytes asked for, wherever they stand in their sectors.
use mboot.Prelude.{
  ℕ, zero, suc, ◌+◌, ◌-◌, ◌*◌, ◌/◌, ◌%◌, ◌^◌, ◌≤◌, ◌<◌, ◌≡◌, refl, ap, ◌∙◌, some, List, ◌∷◌, ◌++◌,
  arith, take, drop, length, replicate,
}
use mboot.Fat16.Disk.{Disk, bytes_at, buffer_of, ata_lba_read, sectors_of, slice_of, read_bytes}

pub length-bytes_at : (disk : Disk) (a n : ℕ) → length (bytes_at disk a n) ≡ n
unfolding bytes_at
length-bytes_at disk a zero = refl
length-bytes_at disk a (suc n) = ap suc (length-bytes_at disk (a + 1) n)

-- Equal addresses and sizes.
pub bytes_at-eq :
    (disk : Disk) {a b m n : ℕ} → a ≡ b → m ≡ n → bytes_at disk a m ≡ bytes_at disk b n
bytes_at-eq disk {b = b} {m = m} p q = ap (λ (k : ℕ). bytes_at disk k m) p ∙ ap (bytes_at disk b) q

pub take-bytes_at :
    (disk : Disk) (a m n : ℕ) (rest : List ℕ)
    → m ≤ n
    → take m (bytes_at disk a n ++ rest) ≡ bytes_at disk a m
unfolding bytes_at
take-bytes_at disk a zero n rest h = refl
take-bytes_at disk a (suc m) zero rest h = elim h [ ]
take-bytes_at disk a (suc m) (suc n) rest h =
    ap (λ l. disk a ∷ l) (take-bytes_at disk (a + 1) m n rest (omega (arith, h)))

pub drop-bytes_at :
    (disk : Disk) (a m n : ℕ) (rest : List ℕ)
    → m ≤ n
    → drop m (bytes_at disk a n ++ rest) ≡ bytes_at disk (a + m) (n - m) ++ rest
unfolding bytes_at
drop-bytes_at disk a zero n rest h =
    ap (λ l. l ++ rest) (bytes_at-eq disk (omega arith) (omega arith))
drop-bytes_at disk a (suc m) zero rest h = elim h [ ]
drop-bytes_at disk a (suc m) (suc n) rest h =
    drop-bytes_at disk (a + 1) m n rest (omega (arith, h))
    ∙ ap (λ l. l ++ rest)
        (bytes_at-eq disk {a = a + 1 + m} {b = a + suc m} {m = n - m} {n = suc n - suc m}
          (omega arith) (omega arith))

sectors-exact :
    (off len : ℕ)
    → 0 < len
    → off + len ≤ 2 ^ 32
    → sectors_of off len ≡ (off + len - 1) / 512 - off / 512 + 1
unfolding sectors_of
sectors-exact off len h k = omega arith

pub buffer-some : (n : ℕ) → 0 < n → buffer_of n ≡ some (replicate n 0)
unfolding buffer_of
buffer-some zero h = elim h [ ]
buffer-some (suc n) h = ground arith

-- The sectors that a range touches, in a buffer of their size, hold the range.
slice-exact :
    (disk : Disk) (off len n : ℕ) (tmp : List ℕ)
    → off + len ≤ 2 ^ 32
    → n < 256
    → sectors_of off len ≡ n
    → off % 512 + len ≤ 512 * n
    → slice_of disk off len (some tmp) ≡ some (bytes_at disk off len)
unfolding ata_lba_read
slice-exact disk off len n tmp k small e fits =
    ap
      (λ (c : ℕ). some (
        take len (
          drop (off % 512) (
            bytes_at disk (512 * (off / 512 % 2 ^ 28)) (512 * (c % 2 ^ 8))
            ++ drop (512 * (c % 2 ^ 8)) tmp))))
      e
    ∙ ap some (
        ap (take len) (drop-bytes_at disk first (off % 512) whole rest (omega (arith, fits)))
        ∙ take-bytes_at disk (first + off % 512) len (whole - off % 512) rest (omega (arith, fits))
        ∙ bytes_at-eq disk {a = first + off % 512} {b = off} {m = len} (omega (arith, k)) refl)
  where
    first : ℕ
    first = 512 * (off / 512 % 2 ^ 28)

    whole : ℕ
    whole = 512 * (n % 2 ^ 8)

    rest : List ℕ
    rest = drop (512 * (n % 2 ^ 8)) tmp

-- A range of bytes that is not empty, ends at 2 ^ 32 or below and touches at most 255 sectors is
-- read exactly, wherever it stands in its sectors: the result is the bytes of the disk at its
-- addresses.
pub read_bytes-bytes_at :
    (disk : Disk) (off len : ℕ)
    → 0 < len
    → off + len ≤ 2 ^ 32
    → (off + len - 1) / 512 - off / 512 < 255
    → read_bytes disk off len ≡ some (bytes_at disk off len)
unfolding read_bytes
read_bytes-bytes_at disk off len h k s =
    let exact = sectors-exact off len h k in
    let n : ℕ = (off + len - 1) / 512 - off / 512 + 1 in
    ap (λ (c : ℕ). slice_of disk off len (buffer_of (c * 512 % 2 ^ 32))) exact
    ∙ ap (slice_of disk off len) (buffer-some (n * 512 % 2 ^ 32) (omega (arith, s)))
    ∙ slice-exact disk off len n (replicate (n * 512 % 2 ^ 32) 0) k (omega (arith, s)) exact
        (omega arith)
