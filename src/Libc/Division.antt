-- ===== src/Libc/Division.antt =====
-- The 64-bit division of user/src/libc.c, which the compiler calls on a 32-bit machine.
--
-- An unsigned 64-bit number is a native number below 2 ^ 64, a signed one its two's complement
-- pattern.
pub mod Unsigned
pub mod Signed
mod Tests
use mboot.Prelude.{
  ℕ, zero, suc, ◌+◌, ◌-◌, ◌*◌, ◌/◌, ◌%◌, ◌^◌, Bool, true, false, not, leb, if◌then◌else◌, bit_or,
}

-- The variables that the loop of __udivmoddi4 changes.
pub record DivState : Type 0 where
  pub a : ℕ
  pub q : ℕ
  pub r : ℕ

-- The two branches of the loop's test, once the next bit is brought down.
abbrev pub subtract : ℕ → DivState → DivState
subtract b s = if leb b s.r then record s { r = s.r - b; q = bit_or s.q 1 } else s

abbrev pub bring_down : DivState → DivState
bring_down s = record {
  a = s.a * 2 % 2 ^ 64;
  q = s.q * 2 % 2 ^ 64;
  r = bit_or (s.r * 2 % 2 ^ 64) (s.a / 2 ^ 63);
}

-- The first iterations of the loop.
unfoldable pub iterations : ℕ → ℕ → DivState → DivState
iterations b zero s = s
iterations b (suc n) s = subtract b (bring_down (iterations b n s))

-- The quotient and the remainder.
unfoldable pub udivmoddi4 : ℕ → ℕ → ℕ × ℕ
udivmoddi4 a b = let s = iterations b 64 (record { a = a; q = 0; r = 0 }) in (s.q, s.r)

unfoldable pub udivdi3 : ℕ → ℕ → ℕ
udivdi3 a b = (udivmoddi4 a b).0

unfoldable pub umoddi3 : ℕ → ℕ → ℕ
umoddi3 a b = (udivmoddi4 a b).1

-- `a < 0` and `-a`
abbrev pub is_negative : ℕ → Bool
is_negative a = leb (2 ^ 63) a

abbrev pub negate : ℕ → ℕ
negate a = (2 ^ 64 - a) % 2 ^ 64

unfoldable pub divdi3 : ℕ → ℕ → ℕ
divdi3 a b =
    let ua = if is_negative a then negate a else a in
    let ub = if is_negative b then negate b else b in
    let neg = if is_negative b then not (is_negative a) else is_negative a in
    let q = (udivmoddi4 ua ub).0 in if neg then negate q else q

unfoldable pub moddi3 : ℕ → ℕ → ℕ
moddi3 a b =
    let ua = if is_negative a then negate a else a in
    let ub = if is_negative b then negate b else b in
    let rem = (udivmoddi4 ua ub).1 in if is_negative a then negate rem else rem
