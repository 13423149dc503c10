-- ===== src/Libc/Division/Signed.antt =====
-- The signed division of user/src/libc.c is C's division of integers, which drops the fraction.
use mboot.Prelude.{
  ℕ, zero, suc, ◌-◌, ◌/◌, ◌%◌, ◌^◌, ◌≤◌, ◌<◌, ◌≡◌, ◌≢◌, refl, ap, ◌∙◌, arith, leb, if◌then◌else◌,
  inl, inr, true, false, Bool-cases, leb→le, ℤ, pos, negsuc, opposite,
}
use native.Mathlib.Nat.{div-le_self, div-lt_self, mod-le}
use mboot.Libc.Division.{is_negative, negate, divdi3, moddi3}
use mboot.Libc.Division.Unsigned.{udivmoddi4_lem}

-- The integer of a two's complement pattern of 64 bits.
abbrev pub signed : ℕ → ℤ
signed a = if leb (2 ^ 63) a then negsuc (2 ^ 64 - 1 - a) else pos a

-- The quotient towards zero, and the remainder with the dividend's sign.
unfoldable pub quot : ℤ → ℤ → ℤ
quot (pos a) (pos b) = pos (a / b)
quot (pos a) (negsuc b) = opposite (a / suc b)
quot (negsuc a) (pos b) = opposite (suc a / b)
quot (negsuc a) (negsuc b) = pos (suc a / suc b)

unfoldable pub rem : ℤ → ℤ → ℤ
rem (pos a) (pos b) = pos (a % b)
rem (pos a) (negsuc b) = pos (a % suc b)
rem (negsuc a) (pos b) = opposite (suc a % b)
rem (negsuc a) (negsuc b) = opposite (suc a % suc b)

signed-pos : (n : ℕ) → n < 2 ^ 63 → signed n ≡ pos n
signed-pos n h = ground (arith, h)

signed-negate : (n : ℕ) → n ≤ 2 ^ 63 → signed (negate n) ≡ opposite n
signed-negate zero h = refl
signed-negate (suc n) h =
    let e : (2 ^ 64 - suc n) % 2 ^ 64 ≡ 2 ^ 64 - suc n = omega (arith, h) in
    let big : leb (2 ^ 63) (2 ^ 64 - suc n) ≡ true = ground (arith, h) in
    ap signed e ∙ rw big (ap negsuc (omega (arith, h)))

-- Only the least integer divided by -1 is too large.
quotient-fits : (n m : ℕ) → n < 2 ^ 63 → (suc n ≡ 2 ^ 63 → suc m ≢ 1) → suc n / suc m < 2 ^ 63
quotient-fits n zero l over = let ne : suc n ≢ 2 ^ 63 = λ e. over e refl in omega (arith, l, ne)
quotient-fits n (suc m) l over =
    omega (arith, l, div-lt_self {n = suc n} {k = suc (suc m)} (omega arith) (omega arith))

-- The sign and the magnitude of a pattern.
data HasSign (a : ℕ) : Type 0 where
  nonnegative : a < 2 ^ 63 → is_negative a ≡ false → signed a ≡ pos a → HasSign a
  negative :
      (m : ℕ)
      → m < 2 ^ 63
      → is_negative a ≡ true
      → signed a ≡ negsuc m
      → negate a ≡ suc m
      → (a ≡ 2 ^ 64 - suc m)
      → HasSign a

signed-HasSign : (a : ℕ) → a < 2 ^ 64 → HasSign a
signed-HasSign a h = elim (Bool-cases (leb (2 ^ 63) a)) [
  | inl e ↦
      let k = leb→le (2 ^ 63) a e in
      negative (2 ^ 64 - 1 - a) (omega (arith, h, k)) e (rw e) (omega (arith, h, k))
        (omega (arith, h, k))
  | inr e ↦ nonnegative (ground (arith, e)) e (rw e)
]

-- For two 64-bit patterns, the divisor not 0, the signed division gives the quotient towards zero
-- of the integers that they stand for, unless the least integer is divided by -1.
pub divdi3-quot :
    (a b : ℕ)
    → a < 2 ^ 64
    → b < 2 ^ 64
    → 0 < b
    → (a ≡ 2 ^ 63 → b ≢ 2 ^ 64 - 1)
    → signed (divdi3 a b) ≡ quot (signed a) (signed b)
unfolding divdi3 quot
divdi3-quot a b ha hb nz over = elim (signed-HasSign a ha) [
  | nonnegative la ea sa ↦ elim (signed-HasSign b hb) [
    | nonnegative lb eb sb ↦
        rw (sa, sb, ea, eb, udivmoddi4_lem a b ha nz)
          (signed-pos (a / b) (omega (arith, div-le_self a b, la)))
    | negative m lb eb sb nb pb ↦
        rw (sa, sb, ea, eb, nb, udivmoddi4_lem a (suc m) ha (omega arith))
          (signed-negate (a / suc m) (omega (arith, div-le_self a (suc m), la)))
  ]
  | negative n la ea sa na pa ↦ elim (signed-HasSign b hb) [
    | nonnegative lb eb sb ↦
        rw (sa, sb, ea, eb, na, udivmoddi4_lem (suc n) b (omega (arith, la)) nz)
          (signed-negate (suc n / b) (omega (arith, div-le_self (suc n) b, la)))
    | negative m lb eb sb nb pb ↦
        rw
          (sa, sb, ea, eb, na, nb, udivmoddi4_lem (suc n) (suc m) (omega (arith, la)) (omega arith))
          (signed-pos (suc n / suc m)
            (quotient-fits n m la (λ e f. over (omega (arith, pa, e)) (omega (arith, pb, f)))))
  ]
]

-- For two 64-bit patterns, the divisor not 0, the signed remainder is that of the division towards
-- zero of the integers that they stand for, with the dividend's sign.
pub moddi3-rem :
    (a b : ℕ) → a < 2 ^ 64 → b < 2 ^ 64 → 0 < b → signed (moddi3 a b) ≡ rem (signed a) (signed b)
unfolding moddi3 rem
moddi3-rem a b ha hb nz = elim (signed-HasSign a ha) [
  | nonnegative la ea sa ↦ elim (signed-HasSign b hb) [
    | nonnegative lb eb sb ↦
        rw (sa, sb, ea, eb, udivmoddi4_lem a b ha nz)
          (signed-pos (a % b) (omega (arith, mod-le a b, la)))
    | negative m lb eb sb nb pb ↦
        rw (sa, sb, ea, eb, nb, udivmoddi4_lem a (suc m) ha (omega arith))
          (signed-pos (a % suc m) (omega (arith, mod-le a (suc m), la)))
  ]
  | negative n la ea sa na pa ↦ elim (signed-HasSign b hb) [
    | nonnegative lb eb sb ↦
        rw (sa, sb, ea, eb, na, udivmoddi4_lem (suc n) b (omega (arith, la)) nz)
          (signed-negate (suc n % b) (omega (arith, mod-le (suc n) b, la)))
    | negative m lb eb sb nb pb ↦
        rw
          (sa, sb, ea, eb, na, nb, udivmoddi4_lem (suc n) (suc m) (omega (arith, la)) (omega arith))
          (signed-negate (suc n % suc m) (omega (arith, mod-le (suc n) (suc m), la)))
  ]
]
