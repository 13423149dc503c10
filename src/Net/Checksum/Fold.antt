-- ===== src/Net/Checksum/Fold.antt =====
-- The arithmetic of the checksum: the folded sum is the sum modulo 2^16 - 1.
use mboot.Prelude.{
  ℕ, suc, ◌+◌, ◌*◌, ◌/◌, ◌%◌, ◌^◌, ◌≤◌, ◌<◌, ◌≡◌, ◌≢◌, ap, ◌∙◌, List, [], ◌∷◌, arith, length, All,
}
use mboot.Prelude.Bits.{bit_or_fields}
use mboot.Net.Checksum.{add_words, fold_carries, complement, sent_checksum, htons}

-- The carry loop of the checksum ends within two rounds: from any 32-bit sum it leaves a number
-- below 2^16 that is congruent to the sum modulo 2^16 - 1, and 0 only for 0.
pub fold_carries-mod :
    (s : ℕ)
    → s < 2 ^ 32
    → (fold_carries 2 s < 2 ^ 16)
      × (fold_carries 2 s % 65535 ≡ s % 65535)
      × (s ≢ 0 → fold_carries 2 s ≢ 0)
unfolding fold_carries
fold_carries-mod s h = ground arith

sent_checksum-mod :
    (f : ℕ)
    → f < 2 ^ 16
    → (0 < sent_checksum (complement f))
      × (sent_checksum (complement f) ≤ 65535)
      × ((sent_checksum (complement f) + f) % 65535 ≡ 0)
sent_checksum-mod f h = ground arith

-- A sum together with its checksum, a computed 0 sent as 0xffff, has the checksum 0.
pub complement-zero :
    (s : ℕ)
    → s + 2 ^ 16 ≤ 2 ^ 32
    → complement (fold_carries 2 (s + sent_checksum (complement (fold_carries 2 s)))) ≡ 0
complement-zero s h =
    let (pos, le, sum) =
      sent_checksum-mod (fold_carries 2 s) (fold_carries-mod s (omega (arith, h))).0 in
    let total = s + sent_checksum (complement (fold_carries 2 s)) in
    let bound : total < 2 ^ 32 = omega (arith, h, le) in
    let (below, same, nonzero) = fold_carries-mod total bound in
    let (_, same_s, _) = fold_carries-mod s (omega (arith, h)) in
    let full : fold_carries 2 total ≡ 65535 =
      omega (arith, same, same_s, sum, below, nonzero (omega (arith, pos))) in
    ap complement full

abbrev pub IsByte : ℕ → Type 0
IsByte b = b < 2 ^ 8

-- The sum of a buffer's words without any wrap.
unfoldable pub words_total : List ℕ → ℕ
words_total [] = 0
words_total (a ∷ []) = a * 2 ^ 8
words_total (a ∷ b ∷ rest) = (a * 2 ^ 8 + b) + words_total rest

pub words_total-le : (bs : List ℕ) → All IsByte bs → 2 * words_total bs ≤ 65535 * suc (length bs)
unfolding words_total
words_total-le [] p = omega arith
words_total-le (a ∷ []) p = omega (arith, p)
words_total-le (a ∷ b ∷ rest) p = omega (arith, p.0, p.1.0, words_total-le rest p.1.1)

pub add_words-total :
    (s : ℕ) (bs : List ℕ)
    → All IsByte bs
    → s + words_total bs < 2 ^ 32
    → add_words s bs ≡ s + words_total bs
unfolding add_words words_total
add_words-total s [] p h = omega arith
add_words-total s (a ∷ []) p h = omega (arith, h)
add_words-total s (a ∷ b ∷ rest) p h =
    let word = bit_or_fields 8 a b p.1.0 in
    ap (λ x. add_words x rest) (omega (arith, word, h))
    ∙ add_words-total (s + (a * 2 ^ 8 + b)) rest p.1.1 (omega (arith, h))
    ∙ omega arith

pub htons-bytes : (x : ℕ) → x < 2 ^ 16 → htons x ≡ x % 2 ^ 8 * 2 ^ 8 + x / 2 ^ 8
htons-bytes x h = bit_or_fields 8 (x % 2 ^ 8) (x / 2 ^ 8) (omega (arith, h))
