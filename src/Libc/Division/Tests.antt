-- ===== src/Libc/Division/Tests.antt =====
-- Divisions of concrete numbers.
use mboot.Prelude.{ℕ, ◌-◌, ◌/◌, ◌%◌, ◌^◌, ◌≡◌, arith}
use mboot.Libc.Division.{udivmoddi4, divdi3}
use mboot.Libc.Division.Unsigned.{udivmoddi4_lem}
use mboot.Libc.Division.Signed.{signed, quot, divdi3-quot}

udivmoddi4_lem_example : udivmoddi4 1000000000000 7 ≡ (1000000000000 / 7, 1000000000000 % 7)
udivmoddi4_lem_example = udivmoddi4_lem 1000000000000 7 (omega arith) (omega arith)

-- -7 divided by 2
abbrev minus_seven : ℕ
minus_seven = 2 ^ 64 - 7

divdi3-quot_example : signed (divdi3 minus_seven 2) ≡ quot (signed minus_seven) (signed 2)
divdi3-quot_example =
    divdi3-quot minus_seven 2 (omega arith) (omega arith) (omega arith) (λ e. omega (arith, e))
