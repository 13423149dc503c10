-- ===== src/Paging/Identity.antt =====
-- paging_init maps every address to itself.
use mboot.Prelude.{
  ℕ, zero, suc, ◌+◌, ◌*◌, ◌/◌, ◌%◌, ◌^◌, ◌<◌, ◌≡◌, ◌≢◌, sym, ap, ◌∙◌, arith, true, ◌==◌, inl, inr,
  Bool-cases, ==_iff, some,
}
use mboot.Prelude.Bits.{bit_or_fields}
use mboot.Paging.{store, slot, is_present, is_large}
use mboot.Paging.Words.{store_same, store_other}
use mboot.Paging.{identity_entry, identity_directory, paging_init}
use mboot.Paging.Mapping.{translate, IsDirectory, translate-large}

entry-fields : (i : ℕ) → i < 2 ^ 10 → identity_entry i ≡ i * 2 ^ 22 + 131
entry-fields i h =
    bit_or_fields 22 (i * 2 ^ 22 % 2 ^ 32 / 2 ^ 22) 131 (omega arith) ∙ omega (arith, h)

identity_directory-entry :
    (pd n i : ℕ) (m : ℕ → ℕ) → i < n → identity_directory pd n m (slot pd i) ≡ identity_entry i
unfolding identity_directory
identity_directory-entry pd zero i m h = elim h [ ]
identity_directory-entry pd (suc n) i m h = elim (Bool-cases (i == n)) [
  | inl e ↦
      let k = (==_iff i n).0 e in
      ap (store (slot pd n) (identity_entry n) (identity_directory pd n m)) (ap (slot pd) k)
      ∙ store_same (slot pd n) (identity_entry n) (identity_directory pd n m)
      ∙ ap identity_entry (sym k)
  | inr e ↦
      let ne : i ≢ n = λ k. ground (arith, e, (==_iff i n).1 k) in
      store_other (slot pd n) (identity_entry n) (identity_directory pd n m) (slot pd i)
        (omega (arith, ne))
      ∙ identity_directory-entry pd n i m (omega (arith, h, ne))
]

module _ (pd : ℕ) (m : ℕ → ℕ) (aligned : pd % 2 ^ 12 ≡ 0) where
  entry : (i : ℕ) → i < 2 ^ 10 → paging_init pd m (slot pd i) ≡ i * 2 ^ 22 + 131
  unfolding paging_init
  entry i h = identity_directory-entry pd 1024 i m h ∙ entry-fields i h

  entry-large : (i : ℕ) → i < 2 ^ 10 → is_large (paging_init pd m (slot pd i)) ≡ true
  entry-large i h =
      ap is_large (entry i h) ∙ (==_iff ((i * 2 ^ 22 + 131) / 2 ^ 7 % 2) 1).1 (omega arith)

  entry-present : (i : ℕ) → i < 2 ^ 10 → is_present (paging_init pd m (slot pd i)) ≡ true
  entry-present i h =
      ap is_present (entry i h) ∙ (==_iff ((i * 2 ^ 22 + 131) % 2) 1).1 (omega arith)

  -- From a page for the directory, whatever the memory held, paging_init leaves a well-formed
  -- directory that translates every 32-bit address to itself.
  pub paging_init-IsDirectory :
      IsDirectory pd (paging_init pd m)
      × ((v : ℕ) → v < 2 ^ 32 → translate pd v (paging_init pd m) ≡ some v)
  paging_init-IsDirectory = (
    record {
      aligned = aligned;
      word = λ i h. omega (arith, h, entry i h);
      present = entry-present;
      apart = λ i h l. ground (arith, entry-large i h, l);
      distinct = λ i j h b l n ne. ground (arith, entry-large i h, l);
    },
    λ v h.
        let i : v / 2 ^ 22 < 2 ^ 10 = omega (arith, h) in
        translate-large pd v (paging_init pd m) (entry-present (v / 2 ^ 22) i)
          (entry-large (v / 2 ^ 22) i)
        ∙ ap some (omega (arith, entry (v / 2 ^ 22) i)),
  )
