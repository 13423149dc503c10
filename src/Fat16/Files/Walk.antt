-- ===== src/Fat16/Files/Walk.antt =====
-- From an offset to its cluster, and on from there.
use mathlib.Core.Path.{subst}
use native.Mathlib.Nat.{mod-lt, suc-mul, div-lt_iff_lt-mul, div-add-mod'}
use mboot.Prelude.{
  ℕ, zero, suc, ◌+◌, ◌-◌, ◌*◌, ◌/◌, ◌%◌, ◌≤◌, ◌<◌, ◌≡◌, ap, ◌∙◌, sym, some, List, [], ◌∷◌, arith,
  take, drop, length, length-append, length-drop, drop-append_ge, drop-drop, All, All-drop,
}
use mboot.Fat16.Disk.{Disk}
use mboot.Fat16.Volume.{Bpb, cluster_size}
use mboot.Fat16.Volume.Layout.{IsVolume, cluster_bytes, size-plain}
use mboot.Fat16.Files.{skip_loop, copy_loop}
use mboot.Fat16.Files.Contents.{
  chain, bytes_of, contents, length-cluster, skip-chain, copy_loop-contents,
}

module _ {disk : Disk} {part_offset : ℕ} {bpb : Bpb} (v : IsVolume disk part_offset bpb) where
  abbrev hold : List ℕ → List ℕ
  hold clusters = bytes_of disk part_offset bpb clusters

  pub length-bytes_of : (l : List ℕ) → length (hold l) ≡ length l * cluster_size bpb
  length-bytes_of [] = omega arith
  length-bytes_of (c ∷ l) = omega (
    arith,
    length-append (cluster_bytes disk part_offset bpb c) (hold l),
    length-cluster v c,
    length-bytes_of l,
    suc-mul (length l) (cluster_size bpb),
  )

  bytes_of-drop :
      (k : ℕ) (l : List ℕ) → k ≤ length l → hold (drop k l) ≡ drop (k * cluster_size bpb) (hold l)
  bytes_of-drop zero l h =
      ap (λ (k : ℕ). drop k (hold l)) {x = 0} {y = 0 * cluster_size bpb} (omega arith)
  bytes_of-drop (suc k) [] h = elim h [ ]
  bytes_of-drop (suc k) (c ∷ l) h =
      let B = cluster_bytes disk part_offset bpb c in
      let long : suc k * cluster_size bpb ≡ k * cluster_size bpb + length B =
        suc-mul k (cluster_size bpb)
        ∙ ap (λ (m : ℕ). k * cluster_size bpb + m) (sym (length-cluster v c)) in
      bytes_of-drop k l (omega (arith, h))
      ∙ ap (λ (m : ℕ). drop m (hold l)) {y = suc k * cluster_size bpb - length B}
          (omega (arith, long))
      ∙ sym (drop-append_ge (suc k * cluster_size bpb) B (hold l) (omega (arith, long)))

  -- Some bytes from an offset on, from the cluster that the offset lies in.
  pub walk-contents :
      (n c offset t fuel : ℕ)
      → t < fuel
      → 0 < t
      → All (λ k. 2 ≤ k) (chain disk part_offset bpb n c)
      → offset + t ≤ length (contents disk part_offset bpb n c)
      → (c' : ℕ) × (skip_loop disk part_offset bpb (offset / cluster_size bpb) c ≡ some c')
        × (copy_loop disk part_offset bpb fuel c' (offset % cluster_size bpb) t
            ≡ some (take t (drop offset (contents disk part_offset bpb n c))))
  walk-contents n c offset t fuel f some_asked d k =
      let size = cluster_size bpb in
      let clusters = chain disk part_offset bpb n c in
      let positive : 0 < size = omega (arith, size-plain v, v.nonempty) in
      let whole = div-add-mod' offset size in
      let passed : offset / size < length clusters =
        (div-lt_iff_lt-mul positive).1 (omega (arith, length-bytes_of clusters, k, some_asked)) in
      let (c', found, rest) = skip-chain v (offset / size) n c passed in
      let here : contents disk part_offset bpb (n - offset / size) c'
          ≡ drop (offset / size * size) (hold clusters) =
        ap hold rest ∙ bytes_of-drop (offset / size) clusters (omega (arith, passed)) in
      (
        c',
        found,
        copy_loop-contents v fuel (n - offset / size) c' (offset % size) t f
              (mod-lt offset positive)
              (subst (All (λ j. 2 ≤ j)) (sym rest)
                (All-drop (λ j. 2 ≤ j) (offset / size) clusters d))
              (omega (
                arith,
                ap length here,
                length-drop (offset / size * size) (hold clusters),
                whole,
                k,
              ))
            ∙ ap (λ l. some (take t (drop (offset % size) l))) here
            ∙ ap (λ l. some (take t l))
                (drop-drop (offset % size) (offset / size * size) (hold clusters))
            ∙ ap (λ (m : ℕ). some (take t (drop m (hold clusters)))) whole,
      )
