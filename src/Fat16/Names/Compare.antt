-- ===== src/Fat16/Names/Compare.antt =====
-- strcasecmp decides whether two strings are equal up to the case of their letters.
use mathlib.Core.List.{head-eq_of_cons-eq, tail-eq_of_cons-eq, nil≢cons}
use mboot.Prelude.{
  ℕ, zero, suc, ◌-◌, ◌<◌, ◌≡◌, refl, ap, ◌∙◌, sym, ◌||◌, List, [], ◌∷◌, ◌==◌, ==_iff, leb, if-All,
  arith, map, All, ◌↔◌, pos, opposite,
}
use mboot.Fat16.Names.{tolower, difference, strcasecmp}

opposite-zero : (n : ℕ) → opposite n ≡ pos 0 → n ≡ 0
opposite-zero zero h = refl
opposite-zero (suc n) h = absurd (cc h)

difference_iff : (a b : ℕ) → (difference a b ≡ pos 0) ↔ (a ≡ b)
difference_iff a b = (
  if-All (λ z. z ≡ pos 0 → a ≡ b) (leb b a) (λ e h. ground (arith, e, h))
      (λ e h. ground (arith, e, opposite-zero (b - a) h)),
  λ p.
      if-All (λ z. z ≡ pos 0) (leb b a) (λ e. ap pos (omega (arith, p)))
        (λ e. absurd (ground (arith, e, p))),
)

-- Strings without a terminator inside.
abbrev pub IsString : List ℕ → Type 0
IsString s = All (λ c. 0 < c) s

pub strcasecmp_iff :
    (s t : List ℕ)
    → IsString s
    → IsString t
    → (strcasecmp s t ≡ pos 0) ↔ (map tolower s ≡ map tolower t)
unfolding strcasecmp
strcasecmp_iff [] [] h k = (λ e. refl, λ e. refl)
strcasecmp_iff [] (d ∷ t) h k =
    (λ e. absurd (omega (arith, (difference_iff 0 d).0 e, k.0)), λ e. absurd (nil≢cons e))
strcasecmp_iff (c ∷ s) [] h k =
    (λ e. absurd (omega (arith, (difference_iff c 0).0 e, h.0)), λ e. absurd (nil≢cons (sym e)))
strcasecmp_iff (c ∷ s) (d ∷ t) h k =
    let rest = strcasecmp_iff s t h.1 k.1 in
    let heads = difference_iff (tolower c) (tolower d) in
    if-All (λ z. (z ≡ pos 0) ↔ (map tolower (c ∷ s) ≡ map tolower (d ∷ t))) ((c == 0) || (d == 0))
      (λ e. absurd (ground (arith, e, h.0, k.0)))
      (λ e.
        if-All (λ z. (z ≡ pos 0) ↔ (map tolower (c ∷ s) ≡ map tolower (d ∷ t)))
          (tolower c == tolower d)
          (λ same.
            let head = (==_iff (tolower c) (tolower d)).0 same in
            (
              λ z. ap (λ (a : ℕ). a ∷ map tolower s) head ∙ ap (λ l. tolower d ∷ l) (rest.0 z),
              λ z. rest.1 (tail-eq_of_cons-eq z),
            ))
          (λ other. (
            λ z. absurd (ground (arith, other, heads.0 z)),
            λ z. absurd (ground (arith, other, head-eq_of_cons-eq z)),
          )))
