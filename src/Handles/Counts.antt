-- ===== src/Handles/Counts.antt =====
-- The references that fat16_open, fat16_dup and fat16_close count.
use mathlib.Core.Path.{subst}
use mboot.Prelude.{
  ℕ, zero, suc, ◌+◌, ◌-◌, ◌%◌, ◌^◌, ◌≤◌, ◌<◌, ◌≡◌, refl, ap, ◌∙◌, sym, Bool, true, false, none,
  some, List, [], ◌∷◌, ◌++◌, ◌==◌, ltb, if◌then◌else◌, if-All, if-Both, arith, length, length-set,
  get_or, inl, inr, ◌⊎◌, Bool-cases, ℤ, pos, negsuc,
}
use mboot.Vfs.Refs.{one_if, value-set}
use mboot.Fat16.Files.{
  Fat16, Fat16File, zeroed_file, file_at, with_file, used_file, dup_found, drop_ref, close_found,
  fat16_dup, fat16_close,
}

-- A handle that names an open file's place.
abbrev pub holds : ℕ → ℤ → Bool
holds i (pos j) = i == j
holds i (negsuc n) = false

-- How many of the descriptors hold a place.
abbrev pub file_held : ℕ → List ℤ → ℕ
file_held i [] = 0
file_held i (h ∷ fds) = one_if (holds i h) + file_held i fds

-- The references that a file counts while it is in use.
abbrev pub file_value : Fat16File → ℕ
file_value f = if f.used then f.refs else 0

abbrev pub file_refs : ℕ → Fat16 → ℕ
file_refs i st = file_value (file_at st i)

pub file_held-append :
    (i : ℕ) (xs ys : List ℤ) → file_held i (xs ++ ys) ≡ file_held i xs + file_held i ys
file_held-append i [] ys = omega arith
file_held-append i (h ∷ xs) ys = omega (arith, file_held-append i xs ys)

pub file_held-le-length : (i : ℕ) (fds : List ℤ) → file_held i fds ≤ length fds
file_held-le-length i [] = omega arith
file_held-le-length i (h ∷ fds) =
    if-All (λ n. n + file_held i fds ≤ suc (length fds)) (holds i h)
      (λ e. omega (arith, file_held-le-length i fds))
      (λ e. omega (arith, file_held-le-length i fds))

-- The descriptors hold open files, and each file counts those that hold it.
pub record IsReferenced (fds : List ℤ) (st : Fat16) : Type 0 where
  pub table : length st.open_files ≡ 8
  pub refs : (i : ℕ) → file_refs i st ≡ file_held i fds

module _ (st : Fat16) (table : length st.open_files ≡ 8) where
  value-used : (f : Fat16File) → 0 < file_value f → (f.used ≡ true) × (file_value f ≡ f.refs)
  value-used f live = elim (Bool-cases f.used) [
    | inl k ↦ (k, ap (λ b. if b then f.refs else 0) k)
    | inr k ↦ absurd (ground (arith, k, live))
  ]

  past_table :
      (files : List Fat16File) (i : ℕ)
      → length files ≤ i
      → file_value (get_or files i zeroed_file) ≡ 0
  past_table [] i h = refl
  past_table (f ∷ files) zero h = absurd (omega (arith, h))
  past_table (f ∷ files) (suc i) h = past_table files i (omega (arith, h))

  inside : (i : ℕ) → 0 < file_refs i st → i < 8
  inside i live = elim (Bool-cases (ltb i 8)) [
    | inl k ↦ ground (arith, k)
    | inr k ↦ absurd (omega (arith, live, past_table st.open_files i (ground (arith, k, table))))
  ]

  used_file-live : (i : ℕ) → 0 < file_refs i st → used_file st i ≡ some i
  used_file-live i live =
      let small = inside i live in
      let used = (value-used (file_at st i) live).0 in
      ap (λ b. if b then none else some i) {y = false} (ground (arith, small, used))

  -- A place written.
  pub file_refs-with_file :
      (i j : ℕ) (f : Fat16File)
      → i < 8
      → file_refs j (with_file st i f) ≡ (if j == i then file_value f else file_refs j st)
  file_refs-with_file i j f h =
      value-set file_value st.open_files i j f zeroed_file (omega (arith, h, table))

  abbrev pub Adds : ℤ → Fat16 → Type 0
  Adds h st' =
      (length st'.open_files ≡ 8)
      × ((i : ℕ) → file_refs i st' ≡ one_if (holds i h) + file_refs i st)

  abbrev pub Drops : ℤ → Fat16 → Type 0
  Drops h st' =
      (length st'.open_files ≡ 8)
      × ((i : ℕ) → one_if (holds i h) + file_refs i st' ≡ file_refs i st)

  module _ (i : ℕ) (live : 0 < file_refs i st) where
    abbrev file : Fat16File
    file = file_at st i

    used_file-refs : (file.used ≡ true) × (file_refs i st ≡ file.refs)
    used_file-refs = value-used file live

    -- A place whose value goes up or down by one.
    raised : (f : Fat16File) → file_value f ≡ 1 + file_refs i st → Adds (pos i) (with_file st i f)
    raised f e = (
      length-set st.open_files i f ∙ table,
      λ j.
          file_refs-with_file i j f (inside i live)
          ∙ if-Both (λ (n m : ℕ). n ≡ m + file_refs j st) (j == i) {x = file_value f}
              {y = file_refs j st} {u = 1} {v = 0}
              (λ k. e ∙ ap (λ (n : ℕ). 1 + file_refs n st) {x = i} {y = j} (ground (arith, k)))
              (λ k. omega arith),
    )

    lowered : (f : Fat16File) → 1 + file_value f ≡ file_refs i st → Drops (pos i) (with_file st i f)
    lowered f e = (
      length-set st.open_files i f ∙ table,
      λ j.
          ap (λ (n : ℕ). one_if (j == i) + n) (file_refs-with_file i j f (inside i live))
          ∙ if-Both (λ (n m : ℕ). m + n ≡ file_refs j st) (j == i) {x = file_value f}
              {y = file_refs j st} {u = 1} {v = 0}
              (λ k. e ∙ ap (λ (n : ℕ). file_refs n st) {x = i} {y = j} (ground (arith, k)))
              (λ k. omega arith),
    )

    dup-raised : file.refs + 1 < 2 ^ 32 → Adds (pos i) (fat16_dup (pos i) st).1
    unfolding fat16_dup
    dup-raised small =
        subst (λ o. Adds (pos i) (dup_found st o).1) (sym (used_file-live i live))
          (raised (record file { refs = (file.refs + 1) % 2 ^ 32 })
            (ap (λ b. if b then (file.refs + 1) % 2 ^ 32 else 0) used_file-refs.0
              ∙ omega (arith, small, used_file-refs.1)))

    close-lowered :
        file.refs < 2 ^ 32
        → ((fat16_close (pos i) st).0 ≡ pos 0) × Drops (pos i) (fat16_close (pos i) st).1
    unfolding fat16_close
    close-lowered small =
        subst (λ o. ((close_found st o).0 ≡ pos 0) × Drops (pos i) (close_found st o).1)
          (sym (used_file-live i live))
          (
            refl,
            lowered (drop_ref file) (
                if-All (λ (f : Fat16File). 1 + file_value f ≡ file_refs i st) (ltb 0 left)
                  (λ k.
                    ap (λ b. 1 + (if b then left else 0)) used_file-refs.0
                    ∙ omega (arith, small, live, used_file-refs.1))
                  (λ k. ground (arith, k, small, live, used_file-refs.1))),
          )
      where
        left : ℕ
        left = (file.refs + 2 ^ 32 - 1) % 2 ^ 32

  holding : (i : ℕ) → one_if (holds i (pos i)) ≤ file_refs i st → 0 < file_refs i st
  holding i h = ground (arith, h)

  -- A handle that holds a file holds one in use, with fewer than 2 ^ 32 references.
  pub fat16_dup-Adds :
      (h : ℤ)
      → ((i : ℕ) → one_if (holds i h) ≤ file_refs i st)
      → ((i : ℕ) → file_refs i st + 1 < 2 ^ 32)
      → Adds h (fat16_dup h st).1
  unfolding fat16_dup
  fat16_dup-Adds (negsuc n) live small = (table, λ i. omega arith)
  fat16_dup-Adds (pos i) live small =
      let alive = holding i (live i) in
      dup-raised i alive (omega (arith, small i, (used_file-refs i alive).1))

  pub fat16_close-Drops :
      (h : ℤ)
      → ((i : ℕ) → one_if (holds i h) ≤ file_refs i st)
      → ((i : ℕ) → file_refs i st + 1 < 2 ^ 32)
      → Drops h (fat16_close h st).1
        × (((fat16_close h st).0 ≡ pos 0) ⊎ ((i : ℕ) → holds i h ≡ false))
  unfolding fat16_close
  fat16_close-Drops (negsuc n) live small = ((table, λ i. omega arith), inr (λ i. refl))
  fat16_close-Drops (pos i) live small =
      let alive = holding i (live i) in
      let (zero_returned, drops) =
        close-lowered i alive (omega (arith, small i, (used_file-refs i alive).1)) in
      (drops, inl zero_returned)
