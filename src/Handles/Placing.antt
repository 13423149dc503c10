-- ===== src/Handles/Placing.antt =====
-- fat16_open adds a reference for the handle that it returns.
use mathlib.Core.Path.{subst}
use mboot.Prelude.{
  ℕ, ◌+◌, ◌*◌, ◌/◌, ◌≡◌, refl, ap, ◌∙◌, sym, Option, none, some, List, [], ◌∷◌, ◌==◌, if◌then◌else◌,
  if-Both, arith, length, length-set, inl, inr, ℤ, pos, negsuc,
}
use mboot.Vfs.{normalize_path}
use mboot.Vfs.Refs.{one_if}
use mboot.Fat16.Disk.{Disk, buffer_of, read_bytes}
use mboot.Fat16.Volume.{get_next_cluster}
use mboot.Fat16.Files.{Fat16, file_at}
use mboot.Fat16.Names.{Dir}
use mboot.Fat16.Directory.{
  scan, free_file, new_file, place_file, open_found, open_if, dir_round, dir_loop, dir_with,
  read_offset, round_end, find_file_in_dir, fat16_open,
}
use mboot.Fat16.Directory.Opening.{free_cases}
use mboot.Handles.Counts.{holds, file_refs, file_refs-with_file}

-- What an opening returns: a handle with a reference more, or an error and no change.
abbrev pub Placed : Fat16 → ℤ × Fat16 → Type 0
Placed st (negsuc n, st') = (n ≡ 0) × (st' ≡ st)
Placed st (pos i, st') =
    (length st'.open_files ≡ 8)
    × ((j : ℕ) → file_refs j st' ≡ one_if (holds j (pos i)) + file_refs j st)

module _ (st : Fat16) (table : length st.open_files ≡ 8) where
  place_file-Placed :
      (fname : List ℕ) (dir : Dir) → Placed st (place_file fname dir st (free_file 0 st.open_files))
  place_file-Placed fname dir = elim (free_cases 0 st.open_files) [
    | inl (e, all) ↦ subst (λ o. Placed st (place_file fname dir st o)) (sym e) (refl, refl)
    | inr (i, e, inside, below, free) ↦
        subst (λ o. Placed st (place_file fname dir st o)) (sym (e ∙ ap some {y = i} (omega arith)))
          (
            length-set st.open_files i (new_file fname dir) ∙ table,
            λ j.
                file_refs-with_file st table i j (new_file fname dir) (omega (arith, inside, table))
                ∙ if-Both (λ (n m : ℕ). n ≡ m + file_refs j st) (j == i) {x = 1}
                    {y = file_refs j st} {u = 1} {v = 0}
                    (λ k.
                      let same : j ≡ i = ground (arith, k) in
                      let unused =
                        ap (λ (n : ℕ). file_refs n st) same
                        ∙ ap (λ b. if b then (file_at st i).refs else 0) free in
                      omega (arith, unused))
                    (λ k. omega arith),
          )
  ]

  open_found-Placed : (fname : List ℕ) (found : Option Dir) → Placed st (open_found fname st found)
  open_found-Placed fname none = (refl, refl)
  open_found-Placed fname (some dir) = place_file-Placed fname dir

  module _ (disk : Disk) (fname : List ℕ) where
    round_ends :
        (next : ℕ) (o : Option Dir)
        → (found : Option Dir) × (round_end disk st.part_offset st.bpb 0 fname (λ c. none) next o
            ≡ some found)
    round_ends next none = (none, refl)
    round_ends next (some dir) = (some dir, refl)

    dir_ends :
        (o : Option (List ℕ))
        → (found : Option Dir) × (dir_round disk st.part_offset st.bpb 0 fname (λ c. none) 0 o
            ≡ some found)
    dir_ends none = (none, refl)
    dir_ends (some buffer) =
        round_ends (get_next_cluster disk st.part_offset st.bpb 0)
          (scan fname (st.bpb.root_ent_cnt * 32 / 32) buffer [])

    search_ends :
        (o : Option (List ℕ))
        → (found : Option Dir) × (dir_with disk st.part_offset st.bpb 0 fname 1 o ≡ some found)
    unfolding dir_loop
    search_ends none = (none, refl)
    search_ends (some buffer) = dir_ends (
        read_bytes disk (read_offset disk st.part_offset st.bpb 0 fname 0)
          (st.bpb.root_ent_cnt * 32))

    -- The search of the root directory always ends.
    find_ends :
        (found : Option Dir) × (find_file_in_dir disk st.part_offset st.bpb 0 fname 1 ≡ some found)
    unfolding find_file_in_dir
    find_ends = search_ends (buffer_of (st.bpb.root_ent_cnt * 32))

  pub fat16_open-Placed :
      (disk : Disk) (path : List ℕ)
      → (out : ℤ × Fat16) × (fat16_open disk path st ≡ some out) × Placed st out
  unfolding fat16_open
  fat16_open-Placed disk [] = ((negsuc 0, st), refl, (refl, refl))
  fat16_open-Placed disk (c ∷ path) =
      let fname = normalize_path (c ∷ path) in
      let (found, e) = find_ends disk fname in
      (open_found fname st found, ap (open_if fname st) e, open_found-Placed fname found)
