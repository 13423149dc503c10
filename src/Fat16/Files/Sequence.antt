-- ===== src/Fat16/Files/Sequence.antt =====
-- Reads of a file one after another.
use mathlib.Core.Path.{subst}
use mboot.Prelude.{
  ℕ, ◌+◌, ◌≤◌, ◌<◌, ◌≡◌, ap, ◌∙◌, sym, Option, none, some, List, [], ◌∷◌, ◌++◌, arith, take, drop,
  length, length-append, drop-drop, take-take_next, length-set, set-set, get_or-set, ℤ, pos, ◌^◌,
  All,
}
use mboot.Fat16.Disk.{Disk}
use mboot.Fat16.Files.{Fat16, Fat16File, Outcome, zeroed_file, file_at, with_file, fat16_read}
use mboot.Fat16.Files.Reading.{IsFile, file_bytes, advanced, fat16_read-file_bytes, advanced-zero}
use mboot.Fat16.Files.Contents.{chain, contents}

-- The bytes of reads of the sizes, one behind another, and the state they leave.
abbrev pub behind : (bytes : List ℕ) → Option (List ℕ × Fat16) → Option (List ℕ × Fat16)
behind bytes none = none
behind bytes (some (rest, st)) = some (bytes ++ rest, st)

abbrev pub go_on : (Fat16 → Option (List ℕ × Fat16)) → Option Outcome → Option (List ℕ × Fat16)
go_on reads none = none
go_on reads (some (result, bytes, st)) = behind bytes (reads st)

unfoldable pub read_each : Disk → (fd : ℤ) → List ℕ → Fat16 → Option (List ℕ × Fat16)
read_each disk fd [] st = some ([], st)
read_each disk fd (size ∷ sizes) st = go_on (read_each disk fd sizes) (fat16_read disk fd size st)

abbrev pub sum : List ℕ → ℕ
sum [] = 0
sum (size ∷ sizes) = size + sum sizes

module _ {disk : Disk} {st : Fat16} {fd n : ℕ} (f : IsFile disk st fd n) where
  file-advanced :
      (k : ℕ)
      → file_at (advanced st fd k) fd
        ≡ record (file_at st fd) { offset = (file_at st fd).offset + k }
  file-advanced k =
      get_or-set st.open_files fd (record (file_at st fd) { offset = (file_at st fd).offset + k })
        zeroed_file (omega (arith, f.place, f.table))

  advanced-IsFile : (k : ℕ) → IsFile disk (advanced st fd k) fd n
  advanced-IsFile k =
      let e = sym (file-advanced k) in
      record {
        place = f.place;
        table = length-set st.open_files fd _ ∙ f.table;
        used = ap (λ (x : Fat16File). x.used) (file-advanced k) ∙ f.used;
        volume = f.volume;
        clusters =
            subst
              (λ (x : Fat16File).
                All (λ c. 2 ≤ c) (chain disk st.part_offset st.bpb n x.start_cluster))
              e f.clusters;
        backed =
            subst
              (λ (x : Fat16File).
                x.size ≤ length (contents disk st.part_offset st.bpb n x.start_cluster))
              e f.backed;
        sized = subst (λ (x : Fat16File). x.size < 2 ^ 32) e f.sized;
      }

  advanced-bytes : (k : ℕ) → file_bytes disk (advanced st fd k) fd n ≡ file_bytes disk st fd n
  advanced-bytes k =
      ap (λ (x : Fat16File). take x.size (contents disk st.part_offset st.bpb n x.start_cluster))
        (file-advanced k)

  advanced-advanced : (k m : ℕ) → advanced (advanced st fd k) fd m ≡ advanced st fd (k + m)
  advanced-advanced k m =
      ap (λ (x : Fat16File). with_file (advanced st fd k) fd (record x { offset = x.offset + m }))
        (file-advanced k)
      ∙ ap (λ table. record st { open_files = table })
          (set-set st.open_files fd _
            (record (file_at st fd) { offset = (file_at st fd).offset + k + m }))
      ∙ ap (λ (o : ℕ). with_file st fd (record (file_at st fd) { offset = o })) (omega arith)

-- Reads of whatever sizes, one after another, of a file in use, of a volume below 2 ^ 32 whose
-- clusters have at most 64 KiB, with a chain of clusters from 2 on that backs the file's size: they
-- give together the bytes of the file from its offset on, as many as they ask for or as are left,
-- wherever the reads split the clusters.
pub read_each-file_bytes :
    (disk : Disk) (st : Fat16) (fd n : ℕ) (sizes : List ℕ)
    → IsFile disk st fd n
    → let part = take (sum sizes) (drop (file_at st fd).offset (file_bytes disk st fd n)) in
      read_each disk (pos fd) sizes st ≡ some (part, advanced st fd (length part))
unfolding read_each
read_each-file_bytes disk st fd n [] f =
    ap (λ s. some ([], s)) (sym (advanced-zero disk st fd n 0 f))
read_each-file_bytes disk st fd n (size ∷ sizes) f =
    let all = file_bytes disk st fd n in
    let o = (file_at st fd).offset in
    let part = take size (drop o all) in
    let k = length part in
    let next = take (sum sizes) (drop k (drop o all)) in
    let same : take (sum sizes)
          (drop (file_at (advanced st fd k) fd).offset (file_bytes disk (advanced st fd k) fd n))
        ≡ next =
      ap
        (λ (x : Fat16File).
          take (sum sizes) (drop x.offset (file_bytes disk (advanced st fd k) fd n)))
        (file-advanced f k)
      ∙ ap (λ l. take (sum sizes) (drop (o + k) l)) (advanced-bytes f k)
      ∙ ap (take (sum sizes)) (sym (drop-drop k o all)) in
    ap (go_on (read_each disk (pos fd) sizes)) (fat16_read-file_bytes disk st fd n size f)
    ∙ ap (behind part)
        (read_each-file_bytes disk (advanced st fd k) fd n sizes (advanced-IsFile f k))
    ∙ ap (λ l. some (part ++ l, advanced (advanced st fd k) fd (length l))) same
    ∙ ap (λ s. some (part ++ next, s))
        (advanced-advanced f k (length next) ∙ ap (advanced st fd) (sym (length-append part next)))
    ∙ ap (λ l. some (l, advanced st fd (length l))) (take-take_next size (sum sizes) (drop o all))
