-- ===== src/Paging/Words.antt =====
-- What the stores of paging_map_page leave at each word.
use mathlib.Core.Path.{subst}
use mboot.Prelude.{
  ltb, ltb→lt, Bool-cases, ==_iff, ℕ, zero, suc, ◌+◌, ◌*◌, ◌/◌, ◌%◌, ◌^◌, ◌≤◌, ◌<◌, ◌≡◌, ◌≢◌, refl,
  sym, ap, ◌∙◌, arith, ◌==◌, bit_or, ◌⊎◌, inl, inr,
}
use mboot.Prelude.Bits.{bit_or_fields, bit_or-digit, bit_or-zero}
use mboot.Paging.{store, slot, small_entry, fill_table}

pub store_same : (at v : ℕ) (m : ℕ → ℕ) → store at v m at ≡ v
store_same at v m = ground arith

pub store_other : (at v : ℕ) (m : ℕ → ℕ) (a : ℕ) → a ≢ at → store at v m a ≡ m a
store_other at v m a ne = ground arith

-- A page of a table, apart from an address.
abbrev pub OutOfPage : ℕ → ℕ → Type 0
OutOfPage page a = (a < page) ⊎ (page + 2 ^ 12 ≤ a)

pub fill_table-other :
    (table base n : ℕ) (m : ℕ → ℕ) (a : ℕ)
    → n ≤ 1024
    → OutOfPage table a
    → fill_table table base n m a ≡ m a
unfolding fill_table
fill_table-other table base zero m a h o = refl
fill_table-other table base (suc n) m a h o =
    store_other (slot table n) (small_entry base n) (fill_table table base n m) a
      (omega (arith, h, o))
    ∙ fill_table-other table base n m a (omega (arith, h)) o

pub fill_table-entry :
    (table base n i : ℕ) (m : ℕ → ℕ)
    → i < n
    → fill_table table base n m (slot table i) ≡ small_entry base i
unfolding fill_table
fill_table-entry table base zero i m h = elim h [ ]
fill_table-entry table base (suc n) i m h = elim (Bool-cases (i == n)) [
  | inl e ↦
      let k = (==_iff i n).0 e in
      subst (λ x. fill_table table base (suc n) m (slot table i) ≡ small_entry base x) (sym k)
        (ap (store (slot table n) (small_entry base n) (fill_table table base n m))
            (ap (slot table) k)
          ∙ store_same (slot table n) (small_entry base n) (fill_table table base n m))
  | inr e ↦
      let ne : i ≢ n = λ k. ground (arith, e, (==_iff i n).1 k) in
      store_other (slot table n) (small_entry base n) (fill_table table base n m) (slot table i)
        (omega (arith, ne))
      ∙ fill_table-entry table base n i m (omega (arith, h, ne))
]

pub small_entry-fields :
    (base i : ℕ)
    → base % 2 ^ 22 ≡ 0
    → base < 2 ^ 32
    → i < 2 ^ 10
    → small_entry base i ≡ base + i * 2 ^ 12 + 3
small_entry-fields base i a b c =
    let k = bit_or_fields 12 ((base + i * 2 ^ 12) % 2 ^ 32 / 2 ^ 12) 3 (omega arith) in
    ap (λ x. bit_or x 3) (omega (arith, a, b, c)) ∙ k ∙ omega (arith, a, b, c)

pub flags-fields :
    (flags : ℕ) → flags < 2 ^ 12 → (bit_or flags 1 < 2 ^ 12) × (bit_or flags 1 % 2 ≡ 1)
flags-fields flags h = omega (arith, h, bit_or-digit flags 1, bit_or-zero (flags / 2))

-- Pages at different addresses share no word.
pub other_page :
    (p q k : ℕ) → p % 2 ^ 12 ≡ 0 → q % 2 ^ 12 ≡ 0 → p ≢ q → k < 2 ^ 10 → OutOfPage p (slot q k)
other_page p q k a b ne h = elim (Bool-cases (ltb q p)) [
  | inl e ↦ inl (omega (arith, a, b, h, ltb→lt q p e))
  | inr e ↦ let le : p ≤ q = ground arith in inr (omega (arith, a, b, h, le, ne))
]
