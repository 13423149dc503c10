-- ===== src/Libc/Numbers.antt =====
-- The numerals of user/src/libc.c: strtol and strtoul.
--
-- A string is the list of its bytes up to the terminator. A long has 32 bits; a result is its bit
-- pattern. The base is not negative. A function gives the number and the string at which it stops, as
-- through endptr; `none` is a signed overflow, whose effect C leaves open. An unsigned one wraps.
pub mod Decimal
mod Tests
use mboot.Prelude.{
  ℕ, ◌+◌, ◌-◌, ◌*◌, ◌%◌, ◌^◌, Bool, true, false, ◌&&◌, ◌||◌, Option, none, some, List, [], ◌∷◌,
  ◌==◌, ltb, leb, if◌then◌else◌,
}

unfoldable pub isspace : ℕ → Bool
isspace c = (c == 32) || ((c == 9) || ((c == 10) || ((c == 11) || ((c == 12) || (c == 13)))))

unfoldable pub skip_spaces : List ℕ → List ℕ
unfolding isspace
skip_spaces [] = []
skip_spaces (c ∷ s) = let rest = skip_spaces s in if isspace c then rest else c ∷ s

-- The digit of a character, whatever the base.
unfoldable pub digit_of : ℕ → Option ℕ
digit_of c =
    if leb 48 c && leb c 57
    then some (c - 48)
    else if leb 97 c && leb c 102
    then some (c - 97 + 10)
    else if leb 65 c && leb c 70
    then some (c - 65 + 10)
    else none

abbrev pub is_x : ℕ → Bool
is_x c = (c == 120) || (c == 88)

-- The base that the loop uses, and where it starts.
unfoldable pub skip_prefix : ℕ → List ℕ → ℕ × List ℕ
skip_prefix base [] = (if base == 0 then 10 else base, [])
skip_prefix base (c ∷ []) =
    if (base == 0) && (c == 48) then (8, []) else (if base == 0 then 10 else base, c ∷ [])
skip_prefix base (c ∷ d ∷ s) =
    if base == 0
    then if c == 48 then if is_x d then (16, s) else (8, d ∷ s) else (10, c ∷ d ∷ s)
    else if (base == 16) && ((c == 48) && is_x d)
    then (16, s)
    else (base, c ∷ d ∷ s)

-- The loop of strtoul over the digits, with the value so far; `next` is the loop behind this character.
abbrev pub on_digit : (base value : ℕ) → List ℕ → (ℕ → ℕ × List ℕ) → Option ℕ → ℕ × List ℕ
on_digit base value s next none = (value, s)
on_digit base value s next (some d) =
    if leb base d then (value, s) else next ((value * base + d) % 2 ^ 32)

unfoldable pub digits_loop : (base value : ℕ) → List ℕ → ℕ × List ℕ
digits_loop base value [] = (value, [])
digits_loop base value (c ∷ s) =
    on_digit base value (c ∷ s) (λ value'. digits_loop base value' s) (digit_of c)

-- The loop of strtol.
abbrev pub on_signed_digit :
    (base value : ℕ) → List ℕ → (ℕ → Option (ℕ × List ℕ)) → Option ℕ → Option (ℕ × List ℕ)
on_signed_digit base value s next none = some (value, s)
on_signed_digit base value s next (some d) =
    if leb base d
    then some (value, s)
    else if leb (2 ^ 31) (value * base + d)
    then none
    else next (value * base + d)

unfoldable pub signed_loop : (base value : ℕ) → List ℕ → Option (ℕ × List ℕ)
signed_loop base value [] = some (value, [])
signed_loop base value (c ∷ s) =
    on_signed_digit base value (c ∷ s) (λ value'. signed_loop base value' s) (digit_of c)

-- The sign that strtol reads: whether it is a minus, and what is behind it.
unfoldable pub read_sign : List ℕ → Bool × List ℕ
read_sign [] = (false, [])
read_sign (c ∷ s) = if c == 45 then (true, s) else if c == 43 then (false, s) else (false, c ∷ s)

abbrev pub number : ℕ × List ℕ → ℕ × List ℕ
number (base, start) = digits_loop base 0 start

-- `result * sign`
abbrev pub with_sign : Bool → Option (ℕ × List ℕ) → Option (ℕ × List ℕ)
with_sign minus none = none
with_sign minus (some (result, end)) =
    some (if minus then (2 ^ 32 - result) % 2 ^ 32 else result, end)

abbrev pub signed_from : ℕ × List ℕ → Option (ℕ × List ℕ)
signed_from (base, start) = signed_loop base 0 start

abbrev pub signed_number : ℕ → Bool × List ℕ → Option (ℕ × List ℕ)
signed_number base (minus, s) = with_sign minus (signed_from (skip_prefix base s))

unfoldable pub strtol : List ℕ → ℕ → Option (ℕ × List ℕ)
strtol nptr base = signed_number base (read_sign (skip_spaces nptr))

unfoldable pub skip_plus : List ℕ → List ℕ
skip_plus [] = []
skip_plus (c ∷ s) = if c == 43 then s else c ∷ s

unfoldable pub strtoul : List ℕ → ℕ → ℕ × List ℕ
strtoul nptr base = number (skip_prefix base (skip_plus (skip_spaces nptr)))

-- The int of atoi has the width of the long.
abbrev pub number_read : Option (ℕ × List ℕ) → Option ℕ
number_read none = none
number_read (some (result, end)) = some result

unfoldable pub atoi : List ℕ → Option ℕ
unfolding strtol
atoi nptr = number_read (strtol nptr 10)
