-- ===== src/Libc/Numbers/Decimal.antt =====
-- Decimal numerals, with a sign or without.
use mboot.Prelude.{
  ℕ, ◌+◌, ◌-◌, ◌*◌, ◌%◌, ◌^◌, ◌<◌, ◌≡◌, refl, ap, ◌∙◌, true, false, ◌&&◌, some, List, [], ◌∷◌, ◌++◌,
  ◌==◌, map, All, ◌⊎◌, leb, if◌then◌else◌, arith, ◌≤◌, sym, Bool, Option, none, ltb, lt→ltb, le→ltb,
  leb→le, if-All,
}
use mboot.Libc.Numbers.{
  isspace, skip_spaces, digit_of, skip_prefix, on_digit, digits_loop, number, with_sign,
  signed_number, read_sign, strtol, skip_plus, strtoul, atoi, on_signed_digit, signed_loop,
  signed_from, number_read,
}

-- The number that decimal digits write behind others.
abbrev pub numeral : ℕ → List ℕ → ℕ
numeral value [] = value
numeral value (d ∷ ds) = numeral (value * 10 + d) ds

-- The characters of the digits.
abbrev pub characters : List ℕ → List ℕ
characters ds = map (λ d. 48 + d) ds

-- Text at which a decimal numeral stops.
abbrev pub Behind : List ℕ → Type 0
Behind [] = Unit
Behind (c ∷ s) = (c < 48) ⊎ (57 < c)

digit_of-character : (d : ℕ) → d < 10 → digit_of (48 + d) ≡ some d
unfolding digit_of
digit_of-character d h =
    let k : (leb 48 (48 + d) && leb (48 + d) 57) ≡ true = ground (arith, h) in
    rw k (ap some (omega arith))

-- The loop stops there.
stops : (value : ℕ) (s : List ℕ) → Behind s → digits_loop 10 value s ≡ (value, s)
unfolding digits_loop digit_of
stops value [] b = refl
stops value (c ∷ s) b = ground (arith, b)

loop-numeral :
    (value : ℕ) (ds s : List ℕ)
    → All (λ d. d < 10) ds
    → Behind s
    → digits_loop 10 (value % 2 ^ 32) (characters ds ++ s) ≡ (numeral value ds % 2 ^ 32, s)
unfolding digits_loop
loop-numeral value [] s a b = stops (value % 2 ^ 32) s b
loop-numeral value (d ∷ ds) s a b =
    let small : leb 10 d ≡ false = ground (arith, a.0) in
    ap
      (on_digit 10 (value % 2 ^ 32) ((48 + d) ∷ characters ds ++ s)
        (λ v. digits_loop 10 v (characters ds ++ s)))
      (digit_of-character d a.0)
    ∙ ap
        (λ t.
          if t
          then (value % 2 ^ 32, (48 + d) ∷ characters ds ++ s)
          else digits_loop 10 ((value % 2 ^ 32 * 10 + d) % 2 ^ 32) (characters ds ++ s))
        small
    ∙ ap (λ v. digits_loop 10 v (characters ds ++ s)) (omega arith)
    ∙ loop-numeral (value * 10 + d) ds s a.1 b

-- The digits that follow never make a number smaller.
numeral-ge : (value : ℕ) (ds : List ℕ) → value ≤ numeral value ds
numeral-ge value [] = omega arith
numeral-ge value (d ∷ ds) = omega (arith, numeral-ge (value * 10 + d) ds)

signed_stops : (value : ℕ) (s : List ℕ) → Behind s → signed_loop 10 value s ≡ some (value, s)
unfolding signed_loop digit_of
signed_stops value [] b = refl
signed_stops value (c ∷ s) b = ground (arith, b)

-- A number that a long holds.
abbrev pub in_long : ℕ → List ℕ → Option (ℕ × List ℕ)
in_long n s = if ltb n (2 ^ 31) then some (n, s) else none

signed_loop-numeral :
    (value : ℕ) (ds s : List ℕ)
    → value < 2 ^ 31
    → All (λ d. d < 10) ds
    → Behind s
    → signed_loop 10 value (characters ds ++ s) ≡ in_long (numeral value ds) s
unfolding signed_loop
signed_loop-numeral value [] s small a b =
    signed_stops value s b
    ∙ sym (ap (λ t. if t then some (value, s) else none) (lt→ltb value (2 ^ 31) small))
signed_loop-numeral value (d ∷ ds) s small a b =
    let next = λ (v : ℕ). signed_loop 10 v (characters ds ++ s) in
    let digit : leb 10 d ≡ false = ground (arith, a.0) in
    ap (on_signed_digit 10 value ((48 + d) ∷ characters ds ++ s) next) (digit_of-character d a.0)
    ∙ ap
        (λ t.
          if t
          then some (value, (48 + d) ∷ characters ds ++ s)
          else if leb (2 ^ 31) (value * 10 + d)
          then none
          else next (value * 10 + d))
        digit
    ∙ if-All (λ o. o ≡ in_long (numeral (value * 10 + d) ds) s) (leb (2 ^ 31) (value * 10 + d))
        (λ e. sym (
          ap (λ t. if t then some (numeral (value * 10 + d) ds, s) else none)
            (le→ltb (numeral (value * 10 + d) ds) (2 ^ 31)
              (omega (arith, leb→le (2 ^ 31) (value * 10 + d) e, numeral-ge (value * 10 + d) ds)))))
        (λ e. signed_loop-numeral (value * 10 + d) ds s (ground (arith, e)) a.1 b)

ap-if {ℓ κ} :
    {A : Type ℓ} {B : Type κ} (f : A → B) (c : Bool) (x y : A)
    → f (if c then x else y) ≡ (if c then f x else f y)
ap-if f true x y = refl
ap-if f false x y = refl

no_space : (d : ℕ) (s : List ℕ) → d < 10 → skip_spaces ((48 + d) ∷ s) ≡ (48 + d) ∷ s
unfolding skip_spaces
no_space d s h =
    let k : isspace (48 + d) ≡ false = unfold isspace in ground (arith, h) in
    ap (λ t. if t then skip_spaces s else (48 + d) ∷ s) k

no_space_minus : (s : List ℕ) → skip_spaces (45 ∷ s) ≡ 45 ∷ s
unfolding skip_spaces isspace
no_space_minus s = refl

no_prefix : (s : List ℕ) → skip_prefix 10 s ≡ (10, s)
unfolding skip_prefix
no_prefix [] = refl
no_prefix (c ∷ []) = refl
no_prefix (c ∷ d ∷ s) = refl

-- strtol, strtoul and atoi read a decimal numeral of at least one digit, with any text behind it
-- that does not begin with a digit, to its end. A value below 2 ^ 31 is the result of strtol and
-- atoi, and its negative that of strtol behind a minus sign; a larger one overflows in both. The
-- result of strtoul is the value modulo 2 ^ 32.
pub strtol-numeral :
    (d : ℕ) (ds s : List ℕ)
    → d < 10
    → All (λ e. e < 10) ds
    → Behind s
    → let text = characters (d ∷ ds) ++ s in
      let value = numeral 0 (d ∷ ds) in
      (strtol text 10 ≡ (if ltb value (2 ^ 31) then some (value, s) else none))
      × (atoi text ≡ (if ltb value (2 ^ 31) then some value else none))
      × (strtol (45 ∷ text) 10
          ≡ (if ltb value (2 ^ 31) then some ((2 ^ 32 - value) % 2 ^ 32, s) else none))
      × (strtoul text 10 ≡ (value % 2 ^ 32, s))
unfolding strtol strtoul atoi read_sign skip_plus
strtol-numeral d ds s h a b = (
  plain,
  ap number_read plain ∙ ap-if number_read (ltb value (2 ^ 31)) (some (value, s)) none,
  negative,
  unsigned,
)
  where
    text : List ℕ
    text = (48 + d) ∷ (characters ds ++ s)

    value : ℕ
    value = numeral 0 (d ∷ ds)

    value_of : signed_from (skip_prefix 10 text) ≡ in_long value s
    value_of =
        ap signed_from (no_prefix text) ∙ signed_loop-numeral 0 (d ∷ ds) s (omega arith) (h, a) b

    unsigned_text : (48 + d == 45) ≡ false
    unsigned_text = ground arith

    no_plus : (48 + d == 43) ≡ false
    no_plus = ground arith

    signless : read_sign text ≡ (false, text)
    signless =
        ap
          (λ t.
            if t
            then (true, characters ds ++ s)
            else if 48 + d == 43
            then (false, characters ds ++ s)
            else (false, text))
          unsigned_text
        ∙ ap (λ t. if t then (false, characters ds ++ s) else (false, text)) no_plus

    plain : strtol text 10 ≡ in_long value s
    plain =
        ap (λ u. signed_number 10 (read_sign u)) (no_space d (characters ds ++ s) h)
        ∙ ap (signed_number 10) signless
        ∙ ap (with_sign false) value_of
        ∙ ap-if (with_sign false) (ltb value (2 ^ 31)) (some (value, s)) none

    unsigned : strtoul text 10 ≡ (value % 2 ^ 32, s)
    unsigned =
        ap (λ u. number (skip_prefix 10 (skip_plus u))) (no_space d (characters ds ++ s) h)
        ∙ ap (λ t. number (skip_prefix 10 (if t then characters ds ++ s else text))) no_plus
        ∙ ap number (no_prefix text)
        ∙ loop-numeral 0 (d ∷ ds) s (h, a) b

    negative :
        strtol (45 ∷ text) 10
        ≡ (if ltb value (2 ^ 31) then some ((2 ^ 32 - value) % 2 ^ 32, s) else none)
    negative =
        ap (λ u. signed_number 10 (read_sign u)) (no_space_minus text)
        ∙ ap (with_sign true) value_of
        ∙ ap-if (with_sign true) (ltb value (2 ^ 31)) (some (value, s)) none
