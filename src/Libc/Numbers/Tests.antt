-- ===== src/Libc/Numbers/Tests.antt =====
-- The numeral 42, with a letter behind it.
use mboot.Prelude.{◌-◌, ◌^◌, some, ◌≡◌, arith, inr, [], ◌∷◌, ◌++◌}
use mboot.Libc.Numbers.{strtol, strtoul, atoi}
use mboot.Libc.Numbers.Decimal.{characters, strtol-numeral}

strtol-numeral_example :
    let text = characters (4 ∷ 2 ∷ []) ++ 107 ∷ [] in
    (strtol text 10 ≡ some (42, 107 ∷ []))
    × (atoi text ≡ some 42)
    × (strtol (45 ∷ text) 10 ≡ some (2 ^ 32 - 42, 107 ∷ []))
    × (strtoul text 10 ≡ (42, 107 ∷ []))
strtol-numeral_example =
    strtol-numeral 4 (2 ∷ []) (107 ∷ []) (omega arith) (omega arith, tt) (inr (omega arith))
