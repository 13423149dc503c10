-- ===== src/Paging/MapPage.antt =====
-- paging_map_page maps one page, and no other.
use mboot.Prelude.{
  ℕ, ◌+◌, ◌/◌, ◌%◌, ◌^◌, ◌<◌, ◌≡◌, ◌≢◌, refl, ap, ◌∙◌, arith, true, false, bit_or, inl, inr,
  Bool-cases, ==_iff, some,
}
use mboot.Prelude.Bits.{bit_or_fields}
use mboot.Paging.{store, slot, split_large, frame, is_present, is_large, paging_map_page}
use mboot.Paging.Words.{flags-fields}
use mboot.Paging.Mapping.{translate, IsDirectory, mapped, unmapped, entered-IsDirectory}
use mboot.Paging.Split.{split-translate, split-IsDirectory, split-small}

-- What a page mapped leaves: the addresses of the page are those of the frame, every other address
-- is translated as before, and the directory stays well formed.
abbrev pub OnePage : (pd vaddr paddr : ℕ) → (m m' : ℕ → ℕ) → Type 0
OnePage pd vaddr paddr m m' =
    ((v : ℕ) → v / 2 ^ 12 ≡ vaddr / 2 ^ 12 → translate pd v m' ≡ some (frame paddr + v % 2 ^ 12))
    × ((v : ℕ) → v < 2 ^ 32 → v / 2 ^ 12 ≢ vaddr / 2 ^ 12 → translate pd v m' ≡ translate pd v m)
    × IsDirectory pd m'

pte-fields :
    (paddr flags : ℕ)
    → flags < 2 ^ 12
    → (frame (bit_or (frame paddr) (bit_or flags 1)) ≡ frame paddr)
      × (is_present (bit_or (frame paddr) (bit_or flags 1)) ≡ true)
pte-fields paddr flags h =
    let (lt, odd) = flags-fields flags h in
    let k = bit_or_fields 12 (paddr / 2 ^ 12) (bit_or flags 1) lt in
    (
      omega (arith, k, lt),
      (==_iff (bit_or (frame paddr) (bit_or flags 1) % 2) 1).1 (omega (arith, k, lt, odd)),
    )

module _ (fresh pd vaddr paddr flags : ℕ) (m : ℕ → ℕ) (dir : IsDirectory pd m)
    (v_word : vaddr < 2 ^ 32) (low : flags < 2 ^ 12) (page : fresh % 2 ^ 12 ≡ 0)
    (word : fresh < 2 ^ 32) (new : fresh ≢ pd)
    (unused : (i : ℕ)
      → i < 2 ^ 10
      → is_large (m (slot pd i)) ≡ false
      → frame (m (slot pd i)) ≢ fresh) where
  abbrev pte : ℕ
  pte = bit_or (frame paddr) (bit_or flags 1)

  one_page :
      (m' : ℕ → ℕ)
      → IsDirectory pd m'
      → is_large (m' (slot pd (vaddr / 2 ^ 22))) ≡ false
      → ((v : ℕ) → v < 2 ^ 32 → translate pd v m' ≡ translate pd v m)
      → OnePage pd vaddr paddr m
          (store (slot (frame (m' (slot pd (vaddr / 2 ^ 22)))) (vaddr / 2 ^ 12 % 2 ^ 10)) pte m')
  one_page m' dir' small same =
      let (at, here) = pte-fields paddr flags low in
      (
        (λ v e.
            mapped pd vaddr pte m' dir' v_word small here v e ∙ ap (λ f. some (f + v % 2 ^ 12)) at),
        (λ v h ne. unmapped pd vaddr pte m' dir' v_word small v h ne ∙ same v h),
        entered-IsDirectory pd vaddr pte m' dir' v_word small,
      )

  -- On a well-formed directory, with flags of 12 bits and a page for a new table that neither the
  -- directory nor a table of it uses, paging_map_page maps the page of vaddr to the frame of paddr,
  -- splitting a large page where one covers it, and the translation of every address in another page
  -- is what it was. The directory stays well formed.
  pub paging_map_page-OnePage :
      OnePage pd vaddr paddr m (paging_map_page fresh pd vaddr paddr flags m)
  unfolding paging_map_page
  paging_map_page-OnePage = elim (Bool-cases (is_large (m (slot pd (vaddr / 2 ^ 22))))) [
    | inl l ↦
        let i : vaddr / 2 ^ 22 < 2 ^ 10 = omega (arith, v_word) in
        rw l (
          one_page (split_large fresh pd (vaddr / 2 ^ 22) m)
            (split-IsDirectory fresh pd (vaddr / 2 ^ 22) m dir i l page word new unused)
            (split-small fresh pd (vaddr / 2 ^ 22) m dir i l page word new unused)
            (split-translate fresh pd (vaddr / 2 ^ 22) m dir i l page word new unused))
    | inr l ↦ rw l (one_page m dir l (λ v h. refl))
  ]
