-- ===== src/Dev/Keyboard/Table.antt =====
-- Which scancodes the tables of keyboard_handler cover.
use mboot.Prelude.{
  ℕ, zero, suc, ◌≤◌, ◌<◌, ◌≡◌, ◌≢◌, refl, ap, ◌∙◌, sym, Bool, true, false, ◌&&◌, Option, none, some,
  List, [], ◌∷◌, ◌==◌, leb, ltb, if◌then◌else◌, if-All, get_elem?, length, ltb→lt, arith, ◌↔◌, inl,
  inr, Bool-cases, Option-cases,
}
use mboot.Dev.Keyboard.{
  Keyboard, Press, nothing, pressed, scancode_map, shift_scancode_map, modifier, looked_up,
  decode_key, decode_other, keyboard_decode,
}

get_elem?-inside : (xs : List ℕ) (i : ℕ) → i < length xs → (c : ℕ) × (get_elem? xs i ≡ some c)
get_elem?-inside [] i h = elim h [ ]
get_elem?-inside (x ∷ xs) zero h = (x, refl)
get_elem?-inside (x ∷ xs) (suc i) h = get_elem?-inside xs i (omega (arith, h))

get_elem?-outside : (xs : List ℕ) (i : ℕ) → length xs ≤ i → get_elem? xs i ≡ none
get_elem?-outside [] i h = refl
get_elem?-outside (x ∷ xs) zero h = absurd (omega (arith, h))
get_elem?-outside (x ∷ xs) (suc i) h = get_elem?-outside xs i (omega (arith, h))

table : Keyboard → List ℕ
table kb = if kb.shifted then shift_scancode_map else scancode_map

length-table : (kb : Keyboard) → length (table kb) ≡ 90
unfolding table
length-table kb = if-All (λ (l : List ℕ). length l ≡ 90) kb.shifted (λ e. refl) (λ e. refl)

looked_up-some :
    (scancode : ℕ) (kb : Keyboard) (o : Option ℕ) (c : ℕ)
    → o ≡ some c
    → looked_up scancode kb o ≢ none
looked_up-some scancode kb none c e k = ground (arith, e)
looked_up-some scancode kb (some d) c e k = elim (Bool-cases (d == 0)) [
  | inl z ↦ ground (arith, k, z)
  | inr z ↦ ground (arith, k, z)
]

decode_key-none :
    (scancode : ℕ) (kb : Keyboard)
    → decode_key scancode kb ≡ none
    → (0x5A ≤ scancode) × (scancode < 0x80)
unfolding decode_key table
decode_key-none scancode kb =
    if-All Refused (leb 0x80 scancode) (λ b e. ground (arith, e))
      (λ b.
        if-All Refused (kb.alt_down && (leb 0x3B scancode && leb scancode 0x3E))
          (λ c e. ground (arith, e))
          (λ c e. elim (Bool-cases (ltb scancode 0x5A)) [
            | inl small ↦
                let (d, f) =
                  get_elem?-inside (table kb) scancode
                    (omega (arith, length-table kb, ltb→lt scancode 0x5A small)) in
                absurd (looked_up-some scancode kb _ d f e)
            | inr large ↦ (ground (arith, large), ground (arith, b))
          ]))
  where
    Refused : Option (Keyboard × Press) → Type 0
    Refused o = o ≡ none → (0x5A ≤ scancode) × (scancode < 0x80)

decode_key-outside :
    (scancode : ℕ) (kb : Keyboard)
    → 0x5A ≤ scancode
    → scancode < 0x80
    → decode_key scancode kb ≡ none
unfolding decode_key table
decode_key-outside scancode kb a b =
    let low : leb 0x80 scancode ≡ false = ground arith in
    let high : (leb 0x3B scancode && leb scancode 0x3E) ≡ false = ground arith in
    let no_f_key : (kb.alt_down && (leb 0x3B scancode && leb scancode 0x3E)) ≡ false =
      ap (λ t. kb.alt_down && t) high ∙ &&-false kb.alt_down in
    ap (λ t. if t then some (kb, nothing) else rest) low
    ∙ ap (λ t. if t then some (kb, pressed scancode 0) else found) no_f_key
    ∙ ap (looked_up scancode kb)
        (get_elem?-outside (table kb) scancode (omega (arith, length-table kb, a)))
  where
    found : Option (Keyboard × Press)
    found = looked_up scancode kb (get_elem? (table kb) scancode)

    rest : Option (Keyboard × Press)
    rest =
        if kb.alt_down && (leb 0x3B scancode && leb scancode 0x3E)
        then some (kb, pressed scancode 0)
        else found

    &&-false : (b : Bool) → (b && false) ≡ false
    &&-false true = refl
    &&-false false = refl

no_modifier :
    (scancode : ℕ) (kb : Keyboard) → 0x5A ≤ scancode → scancode < 0x80 → modifier scancode kb ≡ none
unfolding modifier
no_modifier scancode kb a b = ground arith

-- The handler reads inside its tables for every scancode but those from 0x5A to 0x7F, at which it
-- reads behind their end.
pub keyboard_decode-bounds :
    (scancode : ℕ) (kb : Keyboard)
    → (keyboard_decode scancode kb ≡ none) ↔ ((0x5A ≤ scancode) × (scancode < 0x80))
unfolding keyboard_decode
keyboard_decode-bounds scancode kb = (
  λ e. elim (Option-cases (modifier scancode kb)) [
    | inl m ↦ decode_key-none scancode kb (ap (decode_other scancode kb) (sym m) ∙ e)
    | inr (kb', m) ↦ ground (arith, ap (decode_other scancode kb) (sym m) ∙ e)
  ],
  λ (a, b).
      ap (decode_other scancode kb) (no_modifier scancode kb a b)
      ∙ decode_key-outside scancode kb a b,
)
