-- ===== src/Fat16/Files/Reading.antt =====
-- fat16_read on an open file of a volume: the bytes it gives and where it leaves the offset.
use mboot.Prelude.{
  ℕ, ◌+◌, ◌-◌, ◌/◌, ◌^◌, ◌≤◌, ◌<◌, ◌≡◌, ap, ◌∙◌, sym, true, false, none, some, List, [], ltb, leb,
  ◌==◌, if◌then◌else◌, if-All, arith, take, drop, length, length-drop, length-take, drop-take,
  take-take, drop-ge, take-nil, set-get_or, All, pos,
}
use mboot.Fat16.Disk.{Disk}
use mboot.Fat16.Disk.Slice.{buffer-some}
use mboot.Fat16.Volume.{cluster_size}
use mboot.Fat16.Volume.Layout.{IsVolume, size-plain}
use mboot.Fat16.Files.{
  Fat16, Fat16File, Outcome, file_at, with_file, used_file, to_int, skip_loop, copied, copied_by,
  walked, read_file, read_open, fat16_read,
}
use mboot.Fat16.Files.Contents.{chain, contents}
use mboot.Fat16.Files.Walk.{walk-contents}

-- A file in use at a descriptor, of a volume whose chain, of at most n clusters, backs its size.
pub record IsFile (disk : Disk) (st : Fat16) (fd n : ℕ) : Type 0 where
  pub place : fd < 8
  pub table : length st.open_files ≡ 8
  pub used : (file_at st fd).used ≡ true
  pub volume : IsVolume disk st.part_offset st.bpb
  pub clusters : All (λ c. 2 ≤ c) (chain disk st.part_offset st.bpb n (file_at st fd).start_cluster)
  pub backed :
      (file_at st fd).size
      ≤ length (contents disk st.part_offset st.bpb n (file_at st fd).start_cluster)
  pub sized : (file_at st fd).size < 2 ^ 32

-- The bytes of the file.
abbrev pub file_bytes : Disk → Fat16 → (fd n : ℕ) → List ℕ
file_bytes disk st fd n =
    take (file_at st fd).size (contents disk st.part_offset st.bpb n (file_at st fd).start_cluster)

-- The state behind a read of some bytes.
abbrev pub advanced : Fat16 → (fd bytes : ℕ) → Fat16
advanced st fd bytes =
    with_file st fd (record (file_at st fd) { offset = (file_at st fd).offset + bytes })

module _ (disk : Disk) (st : Fat16) (fd n size : ℕ) (f : IsFile disk st fd n) where
  abbrev file : Fat16File
  file = file_at st fd

  abbrev all_bytes : List ℕ
  all_bytes = contents disk st.part_offset st.bpb n file.start_cluster

  abbrev part : List ℕ
  part = take size (drop file.offset (file_bytes disk st fd n))

  abbrev given : List ℕ → Outcome
  given bytes = (to_int (length bytes), bytes, advanced st fd (length bytes))

  used_file-some : used_file st fd ≡ some fd
  used_file-some =
      ap (λ b. if b then none else some fd) {y = false} (ground (arith, f.place, f.used))

  pub advanced-zero : advanced st fd 0 ≡ st
  advanced-zero =
      ap (λ (o : ℕ). with_file st fd (record file { offset = o })) {y = file.offset} (omega arith)
      ∙ ap (λ table. record st { open_files = table }) (set-get_or st.open_files fd _)

  nothing-left : part ≡ [] → some (pos 0, [], st) ≡ some (given part)
  nothing-left e =
      ap (λ (s : Fat16). some (pos 0, [], s)) (sym advanced-zero) ∙ sym (ap (λ l. some (given l)) e)

  length-file_bytes : length (file_bytes disk st fd n) ≡ file.size
  length-file_bytes = omega (arith, length-take file.size all_bytes, f.backed)

  asked : ℕ
  asked = if ltb (file.size - file.offset) size then file.size - file.offset else size

  part-asked : take asked (drop file.offset all_bytes) ≡ part
  unfolding asked
  part-asked =
      let left = file.size - file.offset in
      ap (λ (k : ℕ). take k (drop file.offset all_bytes)) {y = if ltb size left then size else left}
        (ground arith)
      ∙ take-take size left (drop file.offset all_bytes)
      ∙ ap (take size) (sym (drop-take file.offset file.size all_bytes))

  copied-given :
      (bytes : List ℕ)
      → file.offset + length bytes < 2 ^ 32
      → copied st fd (some bytes) ≡ some (given bytes)
  copied-given bytes h =
      ap
        (λ (o : ℕ).
          some (to_int (length bytes), bytes, with_file st fd (record file { offset = o })))
        (omega (arith, h))

  part-short : leb file.size file.offset ≡ false → file.offset + length part < 2 ^ 32
  part-short e = ground (
    arith,
    e,
    f.sized,
    length-take size (drop file.offset (file_bytes disk st fd n)),
    length-drop file.offset (file_bytes disk st fd n),
    length-file_bytes,
  )

  walk-part :
      0 < size
      → leb file.size file.offset ≡ false
      → walked disk st fd asked (
          skip_loop disk st.part_offset st.bpb
            (file.offset / cluster_size st.bpb)
            file.start_cluster)
        ≡ some (given part)
  unfolding asked
  walk-part h e =
      let positive : 0 < cluster_size st.bpb =
        omega (arith, size-plain f.volume, f.volume.nonempty) in
      let (c', found, rest) =
        walk-contents f.volume n file.start_cluster file.offset asked (asked + 1) (omega arith)
          (ground (arith, h, e)) f.clusters (ground (arith, e, f.backed)) in
      ap (walked disk st fd asked) found
      ∙ ap (copied_by disk st fd asked c') (buffer-some (cluster_size st.bpb) positive)
      ∙ ap (copied st fd) rest
      ∙ ap (λ l. copied st fd (some l)) part-asked
      ∙ copied-given part (part-short e)

  -- The result of the read of a file in use.
  read_file-part : 0 < size → read_file disk st fd size ≡ some (given part)
  unfolding asked
  read_file-part h =
      if-All (λ r. r ≡ some (given part)) (leb file.size file.offset)
        (λ e. nothing-left (
          ap (take size)
            (drop-ge file.offset (file_bytes disk st fd n) (ground (arith, e, length-file_bytes)))
          ∙ take-nil size))
        (λ e.
          ap
            (λ b.
              if b
              then none
              else walked disk st fd asked (
                  skip_loop disk st.part_offset st.bpb (file.offset / cluster_size st.bpb)
                    file.start_cluster))
            {y = false} (ground (arith, size-plain f.volume, f.volume.nonempty))
          ∙ walk-part h e)

-- A read of a file in use, of a volume below 2 ^ 32 whose clusters have at most 64 KiB, with a
-- chain of clusters from 2 on that backs the file's size: it ends, gives the bytes of the file from
-- its offset on, as many as were asked for or as are left, moves the offset behind them, and
-- changes nothing else.
pub fat16_read-file_bytes :
    (disk : Disk) (st : Fat16) (fd n size : ℕ)
    → IsFile disk st fd n
    → let part = take size (drop (file_at st fd).offset (file_bytes disk st fd n)) in
      fat16_read disk (pos fd) size st
      ≡ some (to_int (length part), part, advanced st fd (length part))
unfolding fat16_read
fat16_read-file_bytes disk st fd n size f =
    ap (read_open disk st size) (used_file-some disk st fd n size f)
    ∙ if-All (λ r. r ≡ some (given disk st fd n size f (part disk st fd n size f))) (size == 0)
        (λ e. nothing-left disk st fd n size f (
          ap (λ (k : ℕ). take k (drop (file_at st fd).offset (file_bytes disk st fd n))) {y = 0}
            (ground (arith, e))))
        (λ e. read_file-part disk st fd n size f (ground (arith, e)))
