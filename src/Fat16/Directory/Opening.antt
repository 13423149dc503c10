-- ===== src/Fat16/Directory/Opening.antt =====
-- fat16_open on a root directory.
use native.Mathlib.Nat.{mul-le-mul_right}
use mboot.Prelude.{
  ℕ, suc, ◌+◌, ◌*◌, ◌%◌, ◌^◌, ◌≤◌, ◌<◌, ◌≡◌, ◌≢◌, refl, ap, ◌∙◌, sym, true, false, Option, none,
  some, List, [], ◌∷◌, ◌++◌, if-All, arith, take, length, length-append, get_or, All, ◌⊎◌, inl, inr,
  ℤ, pos, negsuc,
}
use mboot.Vfs.{normalize_path}
use mboot.Fat16.Disk.{Disk, bytes_at, read_bytes}
use mboot.Fat16.Disk.Slice.{buffer-some, length-bytes_at, read_bytes-bytes_at}
use mboot.Fat16.Volume.{byte_at, get_next_cluster}
use mboot.Fat16.Volume.Layout.{IsVolume, root_start, root-plain, plain_size}
use mboot.Fat16.Files.{Fat16, Fat16File, with_file, zeroed_file}
use mboot.Fat16.Names.{Dir}
use mboot.Fat16.Names.Compare.{IsString}
use mboot.Fat16.Directory.{
  scan, dir_with, dir_loop, dir_round, round_end, find_file_in_dir, free_file, place_file,
  open_found, open_if, fat16_open,
}
use mboot.Fat16.Directory.Entries.{length-short_bytes}
use mboot.Fat16.Directory.Search.{
  Item, short, deleted, IsItem, item_bytes, directory_bytes, FirstMatch, scan-FirstMatch,
}

-- A volume whose root directory, of 1 to 2048 entries, holds the items, and no entry behind them.
pub record IsRoot (disk : Disk) (st : Fat16) (items : List Item) (rest : List ℕ) : Type 0 where
  pub volume : IsVolume disk st.part_offset st.bpb
  pub some_entries : 0 < st.bpb.root_ent_cnt
  pub few_entries : st.bpb.root_ent_cnt ≤ 2048
  pub root :
      bytes_at disk (st.part_offset + root_start st.bpb) (st.bpb.root_ent_cnt * 32)
      ≡ directory_bytes items ++ rest
  pub items_valid : All IsItem items
  pub ended : byte_at rest 0 ≡ 0

length-directory_bytes :
    (items : List Item) → All IsItem items → length (directory_bytes items) ≡ 32 * length items
length-directory_bytes [] a = refl
length-directory_bytes (short e ∷ items) a = omega (
  arith,
  length-append (item_bytes (short e)) (directory_bytes items),
  length-short_bytes e a.0,
  length-directory_bytes items a.1,
)
length-directory_bytes (deleted bytes ∷ items) a =
    omega
      (arith, a.0, length-append bytes (directory_bytes items), length-directory_bytes items a.1)

-- The lowest place that is not in use, if there is one; the places are counted from j on.
abbrev pub FreeFrom : ℕ → List Fat16File → Option ℕ → Type 0
FreeFrom j files place =
    ((place ≡ none) × All (λ (f : Fat16File). f.used ≡ true) files)
    ⊎ ((i : ℕ) × (place ≡ some (j + i))
        × (i < length files)
        × All (λ (f : Fat16File). f.used ≡ true) (take i files)
        × ((get_or files i zeroed_file).used ≡ false))

pub free_cases : (j : ℕ) (files : List Fat16File) → FreeFrom j files (free_file j files)
unfolding free_file
free_cases j [] = inl (refl, tt)
free_cases j (f ∷ files) =
    if-All (FreeFrom j (f ∷ files)) f.used
      (λ u. elim (free_cases (j + 1) files) [
        | inl all ↦ inl (all.0, (u, all.1))
        | inr low ↦
            inr (suc low.0, low.1 ∙ ap some (omega arith), omega (arith, low.2), (u, low.3), low.4)
      ])
      (λ u. inr (0, ap some (omega arith), omega arith, tt, u))

-- What an opening leads to once the directory was searched: an error for no match or a full table, else
-- a fresh file at the lowest free place.
abbrev pub Opening : List ℕ → Fat16 → Option Dir → Option ℕ → ℤ × Fat16 → Type 0
Opening fname st none place out = out ≡ (negsuc 0, st)
Opening fname st (some dir) none out = out ≡ (negsuc 0, st)
Opening fname st (some dir) (some i) out = out ≡ (
  pos i,
  with_file st i (record {
    path = take 255 fname;
    start_cluster = dir.fst_clus_lo;
    size = dir.file_size;
    offset = 0;
    used = true;
    refs = 1;
  }),
)

module _ {disk : Disk} {st : Fat16} {items : List Item} {rest : List ℕ}
    (r : IsRoot disk st items rest) where
  -- No more items than entries.
  few : length items ≤ st.bpb.root_ent_cnt
  few = omega (
    arith,
    ap length r.root,
    length-bytes_at disk (st.part_offset + root_start st.bpb) (st.bpb.root_ent_cnt * 32),
    length-append (directory_bytes items) rest,
    length-directory_bytes items r.items_valid,
  )

  round_end-some :
      (target : List ℕ) (next : ℕ) (found : Option Dir)
      → round_end disk st.part_offset st.bpb 0 target (λ c. none) next found ≡ some found
  round_end-some target next none = refl
  round_end-some target next (some dir) = refl

  find-scan :
      (target : List ℕ)
      → find_file_in_dir disk st.part_offset st.bpb 0 target 1
        ≡ some (scan target st.bpb.root_ent_cnt (directory_bytes items ++ rest) [])
  unfolding find_file_in_dir dir_loop
  find-scan target =
      let size = st.bpb.root_ent_cnt * 32 in
      let start = st.part_offset + root_start st.bpb in
      let v = r.volume in
      let far = mul-le-mul_right {m = 1} {n = 2 ^ 16} (plain_size st.bpb) (omega arith) in
      ap (dir_with disk st.part_offset st.bpb 0 target 1)
        (buffer-some size (omega (arith, r.some_entries)))
      ∙ ap (dir_round disk st.part_offset st.bpb 0 target (λ c. none) 0) (
          ap (λ (a : ℕ). read_bytes disk ((st.part_offset + a) % 2 ^ 32) size) (root-plain v)
          ∙ ap (λ (a : ℕ). read_bytes disk a size) {y = start}
              (omega (arith, v.clusters, v.nonempty))
          ∙ read_bytes-bytes_at disk start size (omega (arith, r.some_entries))
              (omega (arith, v.clusters)) (omega (arith, r.few_entries, r.some_entries))
          ∙ ap some r.root)
      ∙ ap
          (λ (n : ℕ).
            round_end disk st.part_offset st.bpb 0 target (λ c. none)
              (get_next_cluster disk st.part_offset st.bpb 0)
              (scan target n (directory_bytes items ++ rest) []))
          {y = st.bpb.root_ent_cnt} (omega arith)
      ∙ round_end-some target (get_next_cluster disk st.part_offset st.bpb 0)
          (scan target st.bpb.root_ent_cnt (directory_bytes items ++ rest) [])

outcome :
    (fname : List ℕ) (st : Fat16) (found : Option Dir) (place : Option ℕ)
    → place ≡ free_file 0 st.open_files
    → Opening fname st found place (open_found fname st found)
outcome fname st none place e = refl
outcome fname st (some dir) none e = ap (place_file fname dir st) (sym e)
outcome fname st (some dir) (some i) e = ap (place_file fname dir st) (sym e)

-- On a volume whose root directory, of 1 to 2048 entries, holds deleted and short entries up to its
-- end, an opening of a path that is not empty searches for the name behind the leading "/" and
-- "./". It gives the first file whose name is that one up to the case of letters, at the lowest
-- free place, at offset 0 and with one reference, and changes no other place. It fails, without a
-- change, exactly when there is no such file or no free place.
pub fat16_open-Opening :
    (disk : Disk) (st : Fat16) (items : List Item) (rest path : List ℕ)
    → IsRoot disk st items rest
    → path ≢ []
    → IsString (normalize_path path)
    → (found : Option Dir) × (place : Option ℕ) × (out : ℤ × Fat16) × (fat16_open disk path st
        ≡ some out)
      × FirstMatch (normalize_path path) items found
      × FreeFrom 0 st.open_files place
      × Opening (normalize_path path) st found place out
unfolding fat16_open
fat16_open-Opening disk st items rest [] r p s = absurd (p refl)
fat16_open-Opening disk st items rest (c ∷ path) r p s =
    let fname = normalize_path (c ∷ path) in
    let found = scan fname st.bpb.root_ent_cnt (directory_bytes items ++ rest) [] in
    let place = free_file 0 st.open_files in
    (
      found,
      place,
      open_found fname st found,
      ap (open_if fname st) (find-scan r fname),
      scan-FirstMatch fname st.bpb.root_ent_cnt items rest s r.items_valid (few r) r.ended,
      free_cases 0 st.open_files,
      outcome fname st found place refl,
    )
