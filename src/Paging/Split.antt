-- ===== src/Paging/Split.antt =====
-- The split of a large page into a table changes no translation.
use mboot.Prelude.{
  ℕ, ◌+◌, ◌*◌, ◌/◌, ◌%◌, ◌^◌, ◌<◌, ◌≡◌, ◌≢◌, sym, ap, ◌∙◌, arith, true, false, ◌==◌, bit_or, ◌⊎◌,
  inl, inr, Bool-cases, ==_iff, some,
}
use mboot.Prelude.Bits.{bit_or_fields}
use mboot.Paging.{slot, fill_table, split_large, frame, large_frame, is_present, is_large}
use mboot.Paging.Words.{
  store_same, store_other, fill_table-other, fill_table-entry, small_entry-fields,
}
use mboot.Paging.Words.{other_page}
use mboot.Paging.Mapping.{translate, IsDirectory, translate_ext, translate-large, translate-small}

module _ (fresh pd d : ℕ) (m : ℕ → ℕ) (dir : IsDirectory pd m) (bound : d < 2 ^ 10)
    (large : is_large (m (slot pd d)) ≡ true) (page : fresh % 2 ^ 12 ≡ 0) (word : fresh < 2 ^ 32)
    (new : fresh ≢ pd)
    (unused : (i : ℕ)
      → i < 2 ^ 10
      → is_large (m (slot pd i)) ≡ false
      → frame (m (slot pd i)) ≢ fresh) where
  abbrev split : ℕ → ℕ
  split = split_large fresh pd d m

  split-here : split (slot pd d) ≡ fresh + 3
  unfolding split_large
  split-here =
      store_same (slot pd d) (bit_or (frame fresh) 3)
        (fill_table fresh (large_frame (m (slot pd d))) 1024 m)
      ∙ bit_or_fields 12 (fresh / 2 ^ 12) 3 (omega arith)
      ∙ omega (arith, page)

  split-entry : (i : ℕ) → i < 2 ^ 10 → i ≢ d → split (slot pd i) ≡ m (slot pd i)
  unfolding split_large
  split-entry i h ne =
      store_other (slot pd d) (bit_or (frame fresh) 3)
        (fill_table fresh (large_frame (m (slot pd d))) 1024 m) (slot pd i) (omega (arith, ne))
      ∙ fill_table-other fresh (large_frame (m (slot pd d))) 1024 m (slot pd i) (omega arith)
          (other_page fresh pd i page dir.aligned new h)

  split-table :
      (i k : ℕ)
      → i < 2 ^ 10
      → k < 2 ^ 10
      → is_large (m (slot pd i)) ≡ false
      → split (slot (frame (m (slot pd i))) k) ≡ m (slot (frame (m (slot pd i))) k)
  unfolding split_large
  split-table i k h b l =
      let f = frame (m (slot pd i)) in
      let own = dir.apart i h l in
      store_other (slot pd d) (bit_or (frame fresh) 3)
        (fill_table fresh (large_frame (m (slot pd d))) 1024 m) (slot f k)
        (omega (arith, own, dir.aligned, b, bound))
      ∙ fill_table-other fresh (large_frame (m (slot pd d))) 1024 m (slot f k) (omega arith)
          (other_page fresh f k page (omega arith) (λ e. unused i h l (sym e)) b)

  split-fresh :
      (k : ℕ) → k < 2 ^ 10 → split (slot fresh k) ≡ large_frame (m (slot pd d)) + k * 2 ^ 12 + 3
  unfolding split_large
  split-fresh k h =
      store_other (slot pd d) (bit_or (frame fresh) 3)
        (fill_table fresh (large_frame (m (slot pd d))) 1024 m) (slot fresh k)
        (omega (arith, new, page, dir.aligned, h, bound))
      ∙ fill_table-entry fresh (large_frame (m (slot pd d))) 1024 k m h
      ∙ small_entry-fields (large_frame (m (slot pd d))) k (omega arith)
          (omega (arith, dir.word d bound)) h

  pub split-small : is_large (split (slot pd d)) ≡ false
  split-small =
      ap is_large split-here
      ∙ (let k : (fresh + 3) / 2 ^ 7 % 2 ≡ 0 = omega (arith, page) in ground arith)

  split-present : is_present (split (slot pd d)) ≡ true
  split-present = ap is_present split-here ∙ (==_iff ((fresh + 3) % 2) 1).1 (omega (arith, page))

  split-frame : frame (split (slot pd d)) ≡ fresh
  split-frame = ap frame split-here ∙ omega (arith, page)

  in_large : (v : ℕ) → v < 2 ^ 32 → v / 2 ^ 22 ≡ d → translate pd v split ≡ translate pd v m
  in_large v h k =
      let i = v / 2 ^ 22 in
      let t = v / 2 ^ 12 % 2 ^ 10 in
      let pte = large_frame (m (slot pd d)) + t * 2 ^ 12 + 3 in
      let here : split (slot pd i) ≡ split (slot pd d) = ap (λ x. split (slot pd x)) k in
      let same : large_frame (m (slot pd i)) ≡ large_frame (m (slot pd d)) =
        ap (λ x. large_frame (m (slot pd x))) k in
      let sum : frame pte + v % 2 ^ 12 ≡ large_frame (m (slot pd i)) + v % 2 ^ 22 =
        omega (arith, same) in
      translate-small pd v split (ap is_present here ∙ split-present)
        (ap is_large here ∙ split-small) pte
        (ap (λ x. split (slot x t)) (ap frame here ∙ split-frame) ∙ split-fresh t (omega arith))
        ((==_iff (pte % 2) 1).1 (omega arith))
      ∙ ap some sum
      ∙ sym (
          translate-large pd v m (dir.present i (omega (arith, h)))
            (ap (λ x. is_large (m (slot pd x))) k ∙ large))

  -- The split changes no translation.
  pub split-translate : (v : ℕ) → v < 2 ^ 32 → translate pd v split ≡ translate pd v m
  split-translate v h = elim (Bool-cases (v / 2 ^ 22 == d)) [
    | inl e ↦ in_large v h ((==_iff (v / 2 ^ 22) d).0 e)
    | inr e ↦
        let ne : v / 2 ^ 22 ≢ d = λ k. ground (arith, e, (==_iff (v / 2 ^ 22) d).1 k) in
        let b : v / 2 ^ 22 < 2 ^ 10 = omega (arith, h) in
        translate_ext pd v m split (split-entry (v / 2 ^ 22) b ne)
          (λ l. split-table (v / 2 ^ 22) (v / 2 ^ 12 % 2 ^ 10) b (omega arith) l)
  ]

  entry-cases :
      (i : ℕ)
      → i < 2 ^ 10
      → ((i ≡ d) × (split (slot pd i) ≡ split (slot pd d)))
        ⊎ ((i ≢ d) × (split (slot pd i) ≡ m (slot pd i)))
  entry-cases i h = elim (Bool-cases (i == d)) [
    | inl e ↦ let k = (==_iff i d).0 e in inl (k, ap (λ x. split (slot pd x)) k)
    | inr e ↦
        let ne : i ≢ d = λ k. ground (arith, e, (==_iff i d).1 k) in inr (ne, split-entry i h ne)
  ]

  -- And the directory stays one.
  pub split-IsDirectory : IsDirectory pd split
  split-IsDirectory = record {
    aligned = dir.aligned;
    word = λ i h. elim (entry-cases i h) [
      | inl (k, e) ↦ omega (arith, e, split-here, word, page)
      | inr (k, e) ↦ omega (arith, e, dir.word i h)
    ];
    present = λ i h. elim (entry-cases i h) [
      | inl (k, e) ↦ ap is_present e ∙ split-present
      | inr (k, e) ↦ ap is_present e ∙ dir.present i h
    ];
    apart = λ i h l. elim (entry-cases i h) [
      | inl (k, e) ↦ λ f. new (sym split-frame ∙ sym (ap frame e) ∙ f)
      | inr (k, e) ↦ λ f. dir.apart i h (sym (ap is_large e) ∙ l) (sym (ap frame e) ∙ f)
    ];
    distinct = λ i j h b l n ne. elim (entry-cases i h) [
      | inl (k, e) ↦ elim (entry-cases j b) [
        | inl (k', e') ↦ absurd (ne (k ∙ sym k'))
        | inr (k', e') ↦ λ f.
            unused j b (sym (ap is_large e') ∙ n)
              (sym (ap frame e') ∙ sym f ∙ ap frame e ∙ split-frame)
      ]
      | inr (k, e) ↦ elim (entry-cases j b) [
        | inl (k', e') ↦ λ f.
            unused i h (sym (ap is_large e) ∙ l) (sym (ap frame e) ∙ f ∙ ap frame e' ∙ split-frame)
        | inr (k', e') ↦ λ f.
            dir.distinct i j h b (sym (ap is_large e) ∙ l) (sym (ap is_large e') ∙ n) ne
              (sym (ap frame e) ∙ f ∙ ap frame e')
      ]
    ];
  }
