-- ===== src/Libc/Division/Unsigned.antt =====
-- The loop of __udivmoddi4 divides, whatever the two operands.
use mboot.Prelude.{
  ℕ, zero, suc, ◌+◌, ◌*◌, ◌/◌, ◌%◌, ◌^◌, ◌≤◌, ◌<◌, ◌≡◌, ap, ◌∙◌, sym, arith, leb, inl, inr,
  Bool-cases, bit_or, leb→le,
}
use mathlib.Core.Path.{subst, ap₂}
use mboot.Prelude.Bits.{bit_or_fields}
use native.Mathlib.Nat.{pow-suc, pow-le-pow_right, mul_assoc, div-eq_of_lt-le, mod-add-div'}
use mboot.Libc.Division.{DivState, subtract, bring_down, iterations, udivmoddi4}

-- What the loop has after n iterations: x is the dividend times 2 ^ n, whose part above 2 ^ 64 is
-- what has been brought down.
record IsDivided (b x bound : ℕ) (s : DivState) : Type 0 where
  rest : s.a ≡ x % 2 ^ 64
  divided : s.q * b + s.r ≡ x / 2 ^ 64
  below : s.r < b
  fits : x / 2 ^ 64 < bound

append_bit : (m r : ℕ) → r < 2 → bit_or (m * 2) r ≡ m * 2 + r
append_bit m r h = bit_or_fields 1 m r h

le_mul : (q b : ℕ) → 0 < b → q ≤ q * b
le_mul q zero h = elim h [ ]
le_mul q (suc b) h = omega arith

module _ (b y bound q : ℕ) (t : DivState) where
  subtract-IsDivided :
      t.a ≡ y % 2 ^ 64
      → t.q ≡ q * 2
      → q * 2 * b + t.r ≡ y / 2 ^ 64
      → t.r < b * 2
      → y / 2 ^ 64 < bound
      → IsDivided b y bound (subtract b t)
  subtract-IsDivided a e d r f = elim (Bool-cases (leb b t.r)) [
    | inl k ↦
        let o : bit_or t.q 1 ≡ q * 2 + 1 = ap (λ z. bit_or z 1) e ∙ append_bit q 1 (omega arith) in
        record {
          rest = ground (arith, a);
          divided = rw (k, o) (omega (arith, d, leb→le b t.r k));
          below = rw k (omega (arith, r, leb→le b t.r k));
          fits = f;
        }
    | inr k ↦ record {
      rest = ground (arith, a);
      divided = rw (k, e, d);
      below = ground (arith, k);
      fits = f;
    }
  ]

module _ (b x bound : ℕ) (s : DivState) (k : bound ≤ 2 ^ 63) (h : IsDivided b x bound s) where
  small : s.q ≤ x / 2 ^ 64
  small = omega (arith, h.divided, le_mul s.q b (omega (arith, h.below)))

  bring_down-r : (bring_down s).r ≡ s.r * 2 + x % 2 ^ 64 / 2 ^ 63
  bring_down-r =
      let e : s.r * 2 % 2 ^ 64 ≡ s.r * 2 = omega (arith, h.divided, h.fits, k) in
      ap (λ y. bit_or y (s.a / 2 ^ 63)) e
      ∙ append_bit s.r (s.a / 2 ^ 63) (omega (arith, h.rest))
      ∙ omega (arith, h.rest)

  iteration : IsDivided b (x * 2) (bound * 2) (subtract b (bring_down s))
  iteration =
      subtract-IsDivided b (x * 2) (bound * 2) s.q (bring_down s) (omega (arith, h.rest))
        (omega (arith, small, h.fits, k)) (omega (arith, h.divided, bring_down-r))
        (omega (arith, h.below, bring_down-r)) (omega (arith, h.fits))

iterations-IsDivided :
    (a b n : ℕ)
    → a < 2 ^ 64
    → 0 < b
    → n ≤ 64
    → IsDivided b (a * 2 ^ n) (2 ^ n) (iterations b n (record { a = a; q = 0; r = 0 }))
unfolding iterations
iterations-IsDivided a b zero ha hb hn = record {
  rest = omega (arith, ha);
  divided = omega (arith, ha);
  below = hb;
  fits = omega (arith, ha);
}
iterations-IsDivided a b (suc n) ha hb hn =
    let double : 2 ^ n * 2 ≡ 2 ^ suc n = sym (pow-suc 2 n) in
    let s = iterations b n (record { a = a; q = 0; r = 0 }) in
    let next =
      iteration b (a * 2 ^ n) (2 ^ n) s
        (pow-le-pow_right {n = 2} (omega arith) {i = n} {j = 63} (omega (arith, hn)))
        (iterations-IsDivided a b n ha hb (omega (arith, hn))) in
    subst (λ x. IsDivided b x (2 ^ suc n) (subtract b (bring_down s)))
      (mul_assoc a (2 ^ n) 2 ∙ ap (λ p. a * p) double)
      (subst (λ p. IsDivided b (a * 2 ^ n * 2) p (subtract b (bring_down s))) double next)

quotient : (q r b a : ℕ) → r < b → q * b + r ≡ a → q ≡ a / b
quotient q r b a h e = sym (div-eq_of_lt-le b (omega (arith, e)) (omega (arith, e, h)))

remainder : (q r b a : ℕ) → r < b → q * b + r ≡ a → r ≡ a % b
remainder q r b a h e = omega (arith, e, mod-add-div' a b, ap (λ z. z * b) (quotient q r b a h e))

-- For every dividend below 2 ^ 64 and every divisor but 0, the loop of 64 iterations gives the
-- quotient and the remainder.
pub udivmoddi4_lem : (a b : ℕ) → a < 2 ^ 64 → 0 < b → udivmoddi4 a b ≡ (a / b, a % b)
unfolding udivmoddi4
udivmoddi4_lem a b ha hb =
    let h = iterations-IsDivided a b 64 ha hb (omega arith) in
    let e : s.q * b + s.r ≡ a = h.divided ∙ omega arith in
    ap₂ (λ q r. (q, r)) (quotient s.q s.r b a h.below e) (remainder s.q s.r b a h.below e)
  where
    s : DivState
    s = iterations b 64 (record { a = a; q = 0; r = 0 })
