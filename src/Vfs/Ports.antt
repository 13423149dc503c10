-- ===== src/Vfs/Ports.antt =====
-- parse_uint16 against the value of a decimal numeral.
use mboot.Prelude.{
  ℕ, ◌+◌, ◌-◌, ◌*◌, ◌≤◌, ◌≡◌, refl, Bool, true, false, ◌&&◌, Option, some, none, List, [], ◌∷◌,
  ◌==◌, ltb, leb, arith, le→leb, le→ltb, lt→leb, ltb→lt, if◌then◌else◌, Bool-cases, inl, inr,
}
use mboot.Vfs.{is_digit, parse_digits, parse_uint16}

-- The value of a numeral's digits behind others of a value, of any length.
unfoldable pub decimal : ℕ → List ℕ → ℕ
decimal value [] = value
decimal value (c ∷ s) = decimal (value * 10 + (c - 48)) s

unfoldable pub all_digits : List ℕ → Bool
all_digits [] = true
all_digits (c ∷ s) = is_digit c && all_digits s

abbrev pub is_numeral : List ℕ → Bool
is_numeral [] = false
is_numeral (c ∷ s) = all_digits (c ∷ s)

decimal-le : (value : ℕ) (s : List ℕ) → value ≤ decimal value s
unfolding decimal
decimal-le value [] = omega arith
decimal-le value (c ∷ s) = omega (arith, decimal-le (value * 10 + (c - 48)) s)

none_both : (b : Bool) (x : Option ℕ) → ◌≡◌ {A = Option ℕ} none (if b && false then x else none)
none_both true x = refl
none_both false x = refl

parse_digits-decimal :
    (value digits : ℕ) (s : List ℕ)
    → value ≤ 65535
    → (digits == 0) ≡ false
    → parse_digits value digits s
      ≡ (if all_digits s && leb (decimal value s) 65535 then some (decimal value s) else none)
unfolding parse_digits decimal all_digits
parse_digits-decimal value digits [] h d = rw (d, le→leb value 65535 h)
parse_digits-decimal value digits (c ∷ s) h d = elim (Bool-cases (is_digit c)) [
  | inr e ↦ rw e
  | inl e ↦ elim (Bool-cases (ltb 65535 (value * 10 + (c - 48)))) [
    | inl f ↦
        let over = lt→leb (decimal (value * 10 + (c - 48)) s) 65535 (
          omega (
            arith,
            ltb→lt 65535 (value * 10 + (c - 48)) f,
            decimal-le (value * 10 + (c - 48)) s,
          )) in
        rw (e, f, over) (none_both (all_digits s) _)
    | inr f ↦
        let le : value * 10 + (c - 48) ≤ 65535 = ground arith in
        let more : (digits + 1 == 0) ≡ false = ground arith in
        let rest = parse_digits-decimal (value * 10 + (c - 48)) (digits + 1) s le more in
        rw (e, f) rest
  ]
]

-- parse_uint16 accepts exactly the nonempty numerals of digits whose value is at most 65535, leading
-- zeros or not, and gives their value.
pub parse_uint16-decimal :
    (s : List ℕ)
    → parse_uint16 s
      ≡ (if is_numeral s && leb (decimal 0 s) 65535 then some (decimal 0 s) else none)
unfolding parse_uint16 parse_digits decimal all_digits
parse_uint16-decimal [] = refl
parse_uint16-decimal (c ∷ s) = elim (Bool-cases (is_digit c)) [
  | inr e ↦ rw e
  | inl e ↦
      let le : 0 * 10 + (c - 48) ≤ 65535 = ground arith in
      rw (e, le→ltb 65535 (0 * 10 + (c - 48)) le)
        (parse_digits-decimal (0 * 10 + (c - 48)) (0 + 1) s le refl)
]
