-- ===== src/Dev/Ring.antt =====
-- The circular buffers of 256 bytes that the terminals and the keyboard keep: what they hold.
use mboot.Prelude.{
  ℕ, zero, suc, ◌+◌, ◌-◌, ◌%◌, ◌<◌, ◌≡◌, ◌≢◌, refl, ap, ◌∙◌, List, [], ◌∷◌, ◌++◌, arith, length,
  get_or, set, get_or-set, get_or-set_ne,
}

-- The bytes of n places from i on, round the ring.
unfoldable pub run : List ℕ → ℕ → ℕ → List ℕ
run buffer i zero = []
run buffer i (suc n) = get_or buffer (i % 256) 0 ∷ run buffer (i + 1) n

-- From the tail up to the head, the oldest first.
abbrev pub queued : (buffer : List ℕ) (head tail : ℕ) → List ℕ
queued buffer head tail = run buffer tail ((head + 256 - tail) % 256)

run-mod : (buffer : List ℕ) (i j n : ℕ) → i % 256 ≡ j % 256 → run buffer i n ≡ run buffer j n
unfolding run
run-mod buffer i j zero e = refl
run-mod buffer i j (suc n) e = rw (e, run-mod buffer (i + 1) (j + 1) n (omega (arith, e)))

run-snoc :
    (buffer : List ℕ) (i n : ℕ)
    → run buffer i (suc n) ≡ run buffer i n ++ get_or buffer ((i + n) % 256) 0 ∷ []
unfolding run
run-snoc buffer i zero = ap (λ k. get_or buffer (k % 256) 0 ∷ []) (omega arith)
run-snoc buffer i (suc n) =
    ap (λ l. get_or buffer (i % 256) 0 ∷ l)
      (run-snoc buffer (i + 1) n
        ∙ ap (λ k. run buffer (i + 1) n ++ get_or buffer (k % 256) 0 ∷ []) (omega arith))

run-set :
    (buffer : List ℕ) (c i n place : ℕ)
    → place ≡ (i + n) % 256
    → n < 256
    → run (set buffer place c) i n ≡ run buffer i n
unfolding run
run-set buffer c i zero place e h = refl
run-set buffer c i (suc n) place e h = rw (
  get_or-set_ne buffer place (i % 256) c 0 (omega (arith, e, h)),
  run-set buffer c (i + 1) n place (omega (arith, e)) (omega (arith, h)),
)

pub length-run : (buffer : List ℕ) (i n : ℕ) → length (run buffer i n) ≡ n
unfolding run
length-run buffer i zero = refl
length-run buffer i (suc n) = ap suc (length-run buffer (i + 1) n)

module _ (buffer : List ℕ) (head tail : ℕ) (h : head < 256) (t : tail < 256) where
  -- A byte stored at the head, where the head does not reach the tail.
  pub queued-push :
      (c : ℕ)
      → length buffer ≡ 256
      → (head + 1) % 256 ≢ tail
      → queued (set buffer head c) ((head + 1) % 256) tail ≡ queued buffer head tail ++ c ∷ []
  queued-push c l n =
      ap (run (set buffer head c) tail) grown
      ∙ run-snoc (set buffer head c) tail count
      ∙ rw (run-set buffer c tail count head (omega arith) (omega arith), at_head)
    where
      count : ℕ
      count = (head + 256 - tail) % 256

      grown : ((head + 1) % 256 + 256 - tail) % 256 ≡ suc count
      grown = omega (arith, n)

      at_head : get_or (set buffer head c) ((tail + count) % 256) 0 ≡ c
      at_head =
          ap (λ k. get_or (set buffer head c) k 0) (omega arith)
          ∙ get_or-set buffer head c 0 (omega (arith, l))

  -- The byte at the tail is the oldest.
  pub queued-pop :
      head ≢ tail
      → queued buffer head tail ≡ get_or buffer tail 0 ∷ queued buffer head ((tail + 1) % 256)
  unfolding run
  queued-pop n =
      ap (run buffer tail) shrunk
      ∙ ap (λ k. get_or buffer k 0 ∷ run buffer (tail + 1) rest) (omega (arith, t))
      ∙ ap (λ l. get_or buffer tail 0 ∷ l)
          (run-mod buffer (tail + 1) ((tail + 1) % 256) rest (omega arith))
    where
      rest : ℕ
      rest = (head + 256 - (tail + 1) % 256) % 256

      shrunk : (head + 256 - tail) % 256 ≡ suc rest
      shrunk = omega (arith, n)
