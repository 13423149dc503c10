-- ===== src/Paging/Mapping.antt =====
-- What paging_map_page does to the addresses that the processor translates.
use mboot.Prelude.{
  ℕ, ◌+◌, ◌/◌, ◌%◌, ◌^◌, ◌<◌, ◌≡◌, ◌≢◌, sym, ap, ◌∙◌, arith, true, false, ◌==◌, inl, inr,
  Bool-cases, ==_iff, Option, some, none, if◌then◌else◌,
}
use mboot.Paging.{store, slot, frame, large_frame, is_present, is_large}
use mboot.Paging.Words.{store_same, store_other}

-- The processor's translation of a virtual address by a directory of 4 KiB and 4 MiB pages.
unfoldable pub translate : ℕ → ℕ → (ℕ → ℕ) → Option ℕ
translate pd v m =
    let entry = m (slot pd (v / 2 ^ 22)) in
    let pte = m (slot (frame entry) (v / 2 ^ 12 % 2 ^ 10)) in
    if is_present entry
    then if is_large entry
      then some (large_frame entry + v % 2 ^ 22)
      else if is_present pte
      then some (frame pte + v % 2 ^ 12)
      else none
    else none

-- A page directory whose entries are all present, and whose tables are pages of their own.
pub record IsDirectory (pd : ℕ) (m : ℕ → ℕ) : Type 0 where
  pub aligned : pd % 2 ^ 12 ≡ 0
  pub word : (i : ℕ) → i < 2 ^ 10 → m (slot pd i) < 2 ^ 32
  pub present : (i : ℕ) → i < 2 ^ 10 → is_present (m (slot pd i)) ≡ true
  pub apart : (i : ℕ) → i < 2 ^ 10 → is_large (m (slot pd i)) ≡ false → frame (m (slot pd i)) ≢ pd
  pub distinct :
      (i j : ℕ)
      → i < 2 ^ 10
      → j < 2 ^ 10
      → is_large (m (slot pd i)) ≡ false
      → is_large (m (slot pd j)) ≡ false
      → i ≢ j
      → frame (m (slot pd i)) ≢ frame (m (slot pd j))

pub translate_ext :
    (pd v : ℕ) (m m' : ℕ → ℕ)
    → m' (slot pd (v / 2 ^ 22)) ≡ m (slot pd (v / 2 ^ 22))
    → (is_large (m (slot pd (v / 2 ^ 22))) ≡ false
        → m' (slot (frame (m (slot pd (v / 2 ^ 22)))) (v / 2 ^ 12 % 2 ^ 10))
          ≡ m (slot (frame (m (slot pd (v / 2 ^ 22)))) (v / 2 ^ 12 % 2 ^ 10)))
    → translate pd v m' ≡ translate pd v m
unfolding translate
translate_ext pd v m m' e p = elim (Bool-cases (is_large (m (slot pd (v / 2 ^ 22))))) [
  | inl l ↦ rw (e, l)
  | inr l ↦ rw (e, l, p l)
]

pub translate-large :
    (pd v : ℕ) (m : ℕ → ℕ)
    → is_present (m (slot pd (v / 2 ^ 22))) ≡ true
    → is_large (m (slot pd (v / 2 ^ 22))) ≡ true
    → translate pd v m ≡ some (large_frame (m (slot pd (v / 2 ^ 22))) + v % 2 ^ 22)
unfolding translate
translate-large pd v m p l = rw (p, l)

pub translate-small :
    (pd v : ℕ) (m : ℕ → ℕ)
    → is_present (m (slot pd (v / 2 ^ 22))) ≡ true
    → is_large (m (slot pd (v / 2 ^ 22))) ≡ false
    → (pte : ℕ) → m (slot (frame (m (slot pd (v / 2 ^ 22)))) (v / 2 ^ 12 % 2 ^ 10)) ≡ pte
    → is_present pte ≡ true
    → translate pd v m ≡ some (frame pte + v % 2 ^ 12)
unfolding translate
translate-small pd v m p l pte e q = rw (p, l, e, q)

module _ (pd vaddr pte : ℕ) (m : ℕ → ℕ) (dir : IsDirectory pd m) (v_word : vaddr < 2 ^ 32)
    (small : is_large (m (slot pd (vaddr / 2 ^ 22))) ≡ false) where
  abbrev pub table : ℕ
  table = frame (m (slot pd (vaddr / 2 ^ 22)))

  abbrev pub entered : ℕ → ℕ
  entered = store (slot table (vaddr / 2 ^ 12 % 2 ^ 10)) pte m

  -- the directory itself is not written
  same_entry : (i : ℕ) → i < 2 ^ 10 → entered (slot pd i) ≡ m (slot pd i)
  same_entry i h =
      let ne = dir.apart (vaddr / 2 ^ 22) (omega (arith, v_word)) small in
      store_other (slot table (vaddr / 2 ^ 12 % 2 ^ 10)) pte m (slot pd i)
        (omega (arith, ne, h, dir.aligned))

  pub mapped :
      is_present pte ≡ true
      → (v : ℕ) → v / 2 ^ 12 ≡ vaddr / 2 ^ 12
      → translate pd v entered ≡ some (frame pte + v % 2 ^ 12)
  mapped q v e =
      let d : v / 2 ^ 22 ≡ vaddr / 2 ^ 22 = omega (arith, e) in
      let t : v / 2 ^ 12 % 2 ^ 10 ≡ vaddr / 2 ^ 12 % 2 ^ 10 = omega (arith, e) in
      let bound : vaddr / 2 ^ 22 < 2 ^ 10 = omega (arith, v_word) in
      let entry : entered (slot pd (v / 2 ^ 22)) ≡ m (slot pd (vaddr / 2 ^ 22)) =
        ap (λ i. entered (slot pd i)) d ∙ same_entry (vaddr / 2 ^ 22) bound in
      translate-small pd v entered (ap is_present entry ∙ dir.present (vaddr / 2 ^ 22) bound)
        (ap is_large entry ∙ small) pte
        (ap (λ x. entered (slot (frame x) (v / 2 ^ 12 % 2 ^ 10))) entry
          ∙ ap (λ x. entered (slot table x)) t
          ∙ store_same (slot table (vaddr / 2 ^ 12 % 2 ^ 10)) pte m)
        q

  pub unmapped :
      (v : ℕ) → v < 2 ^ 32 → v / 2 ^ 12 ≢ vaddr / 2 ^ 12 → translate pd v entered ≡ translate pd v m
  unmapped v h ne = translate_ext pd v m entered (same_entry (v / 2 ^ 22) (omega (arith, h))) (λ l.
      store_other (slot table (vaddr / 2 ^ 12 % 2 ^ 10)) pte m
        (slot (frame (m (slot pd (v / 2 ^ 22)))) (v / 2 ^ 12 % 2 ^ 10)) (other_slot l))
    where
      other_slot :
          is_large (m (slot pd (v / 2 ^ 22))) ≡ false
          → slot (frame (m (slot pd (v / 2 ^ 22)))) (v / 2 ^ 12 % 2 ^ 10)
            ≢ slot table (vaddr / 2 ^ 12 % 2 ^ 10)
      other_slot l = elim (Bool-cases (v / 2 ^ 22 == vaddr / 2 ^ 22)) [
        | inl e ↦
            let d = (==_iff (v / 2 ^ 22) (vaddr / 2 ^ 22)).0 e in
            let f = ap (λ i. frame (m (slot pd i))) d in omega (arith, d, f, ne)
        | inr e ↦
            let d : v / 2 ^ 22 ≢ vaddr / 2 ^ 22 =
              λ k. ground (arith, e, (==_iff (v / 2 ^ 22) (vaddr / 2 ^ 22)).1 k) in
            let f =
              dir.distinct (v / 2 ^ 22) (vaddr / 2 ^ 22) (omega (arith, h)) (omega (arith, v_word))
                l small d in
            omega (arith, f)
      ]

  -- A directory whose tables change stays one.
  pub entered-IsDirectory : IsDirectory pd entered
  entered-IsDirectory = record {
    aligned = dir.aligned;
    word = λ i h. omega (arith, same_entry i h, dir.word i h);
    present = λ i h. ap is_present (same_entry i h) ∙ dir.present i h;
    apart = λ i h l f.
        dir.apart i h (sym (ap is_large (same_entry i h)) ∙ l)
          (sym (ap frame (same_entry i h)) ∙ f);
    distinct = λ i j h b l n ne f.
        dir.distinct i j h b (sym (ap is_large (same_entry i h)) ∙ l)
          (sym (ap is_large (same_entry j b)) ∙ n) ne
          (sym (ap frame (same_entry i h)) ∙ f ∙ ap frame (same_entry j b));
  }
