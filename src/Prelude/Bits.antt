-- ===== src/Prelude/Bits.antt =====
-- The masks and shifts of the C code as arithmetic: `&` with low or high ones, `|` of disjoint
-- fields. The native operations stand for a recursion on binary digits.
use Prim.Native.Nat.{
  ℕ, zero, suc, ◌+◌, ◌-◌, ◌*◌, ◌/◌, ◌%◌, ◌^◌, ◌≤◌, ◌<◌, min, max, digits, bit_and, bit_or,
  bit_and-bitwise, bit_or-bitwise,
}
use native.Mathlib.Nat.{
  pow-suc, one-le-pow, mul-one, div-one, pow-succ', mod_def, mul-div-le, div-div-eq-div-mul,
}
use native.Mathlib.Omega.{arith}
use mathlib.Core.Path.{◌≡◌, refl, ap}

digits-zero : (rest : ℕ → ℕ) (bit : ℕ → ℕ → ℕ) (fuel b : ℕ) → digits rest bit fuel zero b ≡ rest b
digits-zero rest bit zero b = refl
digits-zero rest bit (suc fuel) b = refl

-- Fuel above the first operand makes no difference.
enough_digits :
    (rest : ℕ → ℕ) (bit : ℕ → ℕ → ℕ) (fuel extra a b : ℕ)
    → a ≤ fuel
    → digits rest bit (fuel + extra) a b ≡ digits rest bit fuel a b
enough_digits rest bit fuel extra zero b h = rw (digits-zero, digits-zero)
enough_digits rest bit zero extra (suc a) b h = absurd (omega arith)
enough_digits rest bit (suc fuel) extra (suc a) b h =
    let more : suc fuel + extra ≡ suc (fuel + extra) = omega arith in
    rw (more, enough_digits rest bit fuel extra (suc a / 2) (b / 2) (omega arith))

lowest_digit :
    (rest : ℕ → ℕ) (bit : ℕ → ℕ → ℕ) (a b : ℕ)
    → digits rest bit (suc a) (suc a) b
      ≡ digits rest bit (suc a / 2) (suc a / 2) (b / 2) * 2 + bit (suc a % 2) (b % 2)
lowest_digit rest bit a b =
    let split : suc a / 2 + (a - suc a / 2) ≡ a = omega arith in
    let same =
      enough_digits rest bit (suc a / 2) (a - suc a / 2) (suc a / 2) (b / 2) (omega arith) in
    ap (λ (d : ℕ). d * 2 + bit (suc a % 2) (b % 2)) (rw split at same)

-- The lowest digit of each operation, in front of the others.
pub bit_and-digit :
    (word mask : ℕ)
    → bit_and word mask ≡ min (word % 2) (mask % 2) + 2 * bit_and (word / 2) (mask / 2)
bit_and-digit zero mask = simp bit_and-bitwise (omega arith)
bit_and-digit (suc w) mask =
    simp bit_and-bitwise (omega (arith, lowest_digit (λ k. zero) min w mask))

pub bit_or-digit :
    (word field : ℕ)
    → bit_or word field ≡ max (word % 2) (field % 2) + 2 * bit_or (word / 2) (field / 2)
bit_or-digit zero field = simp bit_or-bitwise (omega arith)
bit_or-digit (suc w) field = simp bit_or-bitwise (omega (arith, lowest_digit (λ k. k) max w field))

and_none : (n a : ℕ) → a ≤ n → bit_and a 0 ≡ 0
and_none n zero h = refl
and_none zero (suc a) h = absurd (omega arith)
and_none (suc n) (suc a) h =
    omega (arith, bit_and-digit (suc a) 0, and_none n (suc a / 2) (omega arith))

pub bit_and-zero : (a : ℕ) → bit_and a 0 ≡ 0
bit_and-zero a = and_none a a (omega arith)

or_only : (n a : ℕ) → a ≤ n → bit_or a 0 ≡ a
or_only n zero h = refl
or_only zero (suc a) h = absurd (omega arith)
or_only (suc n) (suc a) h =
    omega (arith, bit_or-digit (suc a) 0, or_only n (suc a / 2) (omega arith))

pub bit_or-zero : (a : ℕ) → bit_or a 0 ≡ a
bit_or-zero a = or_only a a (omega arith)

above_halves : (k a : ℕ) → a / 2 / 2 ^ k ≡ a / 2 ^ suc k
above_halves k a = rw (pow-succ', div-div-eq-div-mul)

-- A mask whose `k` low bits are clear acts on what stands above them.
pub bit_and_above : (k a m : ℕ) → bit_and a (m * 2 ^ k) ≡ bit_and (a / 2 ^ k) m * 2 ^ k
bit_and_above zero a m = rw (mul-one, div-one, mul-one)
bit_and_above (suc k) a m = ground (
  arith,
  bit_and-digit a (m * 2 ^ suc k),
  ap (λ (t : ℕ). bit_and (a / 2) t) below,
  bit_and_above k (a / 2) m,
  ap (λ (t : ℕ). bit_and t m) (above_halves k a),
  twice (bit_and (a / 2 ^ suc k) m),
  twice m,
)
  where
    twice : (t : ℕ) → t * 2 ^ suc k ≡ 2 * (t * 2 ^ k)
    twice t = omega (arith, ap (λ (p : ℕ). t * p) (pow-suc 2 k))

    below : m * 2 ^ suc k / 2 ≡ m * 2 ^ k
    below = omega (arith, twice m)

-- A mask of `k` ones keeps the remainder.
pub bit_and_mask : (k a : ℕ) → bit_and a (2 ^ k - 1) ≡ a % 2 ^ k
bit_and_mask zero a = rw bit_and-zero (omega arith)
bit_and_mask (suc k) a = ground (
  arith,
  bit_and-digit a (2 ^ suc k - 1),
  pow-suc 2 k,
  one-le-pow k 2,
  bit_and_mask k (a / 2),
  halves,
)
  where
    halves : a % 2 ^ suc k ≡ (a / 2) % 2 ^ k * 2 + a % 2
    halves = omega (
      arith,
      mod_def a (2 ^ suc k),
      mod_def (a / 2) (2 ^ k),
      mul-div-le a (2 ^ suc k),
      mul-div-le (a / 2) (2 ^ k),
      ap (λ (p : ℕ). p * (a / 2 ^ suc k)) (pow-suc 2 k),
      ap (λ (p : ℕ). 2 ^ k * p) (above_halves k a),
    )

-- Disjoint fields add up.
pub bit_or_fields : (k m r : ℕ) → r < 2 ^ k → bit_or (m * 2 ^ k) r ≡ m * 2 ^ k + r
bit_or_fields zero m r h = ground (arith, bit_or-zero m)
bit_or_fields (suc k) m r h = ground (
  arith,
  bit_or-digit (m * 2 ^ suc k) r,
  ap (λ (t : ℕ). m * t) (pow-suc 2 k),
  bit_or_fields k m (r / 2) (omega (arith, pow-suc 2 k)),
)
