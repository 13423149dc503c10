-- ===== src/Fat16/Files/Contents.antt =====
-- fat16_read gives the bytes of the file's clusters from its offset on.
use mathlib.Core.Path.{subst}
use mboot.Prelude.{
  ℕ, zero, suc, ◌+◌, ◌-◌, ◌≤◌, ◌<◌, ◌≡◌, refl, ap, ◌∙◌, sym, Bool, true, false, ◌&&◌, Option, none,
  some, List, [], ◌∷◌, ◌++◌, ltb, leb, if◌then◌else◌, arith, take, drop, length, length-append,
  length-drop, take-ge, take-append_le, take-append_ge, drop-append_le, append-nil, All, Bool-cases,
  inl, inr,
}
use mboot.Fat16.Disk.{Disk, read_bytes}
use mboot.Fat16.Disk.Slice.{length-bytes_at}
use mboot.Fat16.Volume.{Bpb, cluster_size, get_next_cluster, cluster_offset}
use mboot.Fat16.Volume.Layout.{
  IsVolume, entry_of, cluster_bytes, plain_size, size-plain, get_next_cluster-entry,
  read_bytes-cluster,
}
use mboot.Fat16.Files.{skip_loop, copy_round, copy_read, copy_loop, in_front}

module _ (disk : Disk) (part_offset : ℕ) (bpb : Bpb) where
  -- The chain of a cluster, of at most as many clusters as the fuel.
  abbrev pub chain : (fuel cluster : ℕ) → List ℕ
  chain zero cluster = []
  chain (suc n) cluster =
      let rest = chain n (entry_of disk part_offset bpb cluster) in
      if ltb cluster 0xFFF8 then cluster ∷ rest else []

  abbrev pub bytes_of : List ℕ → List ℕ
  bytes_of [] = []
  bytes_of (c ∷ clusters) = cluster_bytes disk part_offset bpb c ++ bytes_of clusters

  -- What the clusters of a chain hold.
  abbrev pub contents : (fuel cluster : ℕ) → List ℕ
  contents fuel cluster = bytes_of (chain fuel cluster)

module _ {disk : Disk} {part_offset : ℕ} {bpb : Bpb} (v : IsVolume disk part_offset bpb) where
  abbrev entry : ℕ → ℕ
  entry c = entry_of disk part_offset bpb c

  pub length-cluster : (c : ℕ) → length (cluster_bytes disk part_offset bpb c) ≡ cluster_size bpb
  length-cluster c = length-bytes_at disk _ (plain_size bpb) ∙ sym (size-plain v)

  -- A chain that is not empty begins with its cluster.
  chain-first :
      (n c : ℕ)
      → 0 < length (chain disk part_offset bpb n c)
      → (ltb c 0xFFF8 ≡ true)
        × (chain disk part_offset bpb n c
            ≡ c ∷ chain disk part_offset bpb (n - 1) (entry_of disk part_offset bpb c))
  chain-first zero c h = elim h [ ]
  chain-first (suc n) c h = elim (Bool-cases (ltb c 0xFFF8)) [
    | inl e ↦ (
      e,
      ap (λ b. if b then c ∷ rest else []) e
          ∙ ap (λ (k : ℕ). c ∷ chain disk part_offset bpb k (entry_of disk part_offset bpb c))
              (omega arith),
    )
    | inr e ↦
        absurd (omega (arith, subst (λ (b : Bool). 0 < length (if b then c ∷ rest else [])) e h))
  ]
    where
      rest : List ℕ
      rest = chain disk part_offset bpb n (entry_of disk part_offset bpb c)

  next-entry :
      (c : ℕ)
      → ltb c 0xFFF8 ≡ true
      → get_next_cluster disk part_offset bpb c ≡ entry_of disk part_offset bpb c
  next-entry c e = get_next_cluster-entry v c (ground (arith, e))

  pub skip-chain :
      (k n c : ℕ)
      → k < length (chain disk part_offset bpb n c)
      → (c' : ℕ) × (skip_loop disk part_offset bpb k c ≡ some c')
        × (chain disk part_offset bpb (n - k) c' ≡ drop k (chain disk part_offset bpb n c))
  unfolding skip_loop
  skip-chain zero n c h = (c, refl, ap (λ (m : ℕ). chain disk part_offset bpb m c) (omega arith))
  skip-chain (suc k) n c h =
      let (small, first) = chain-first n c (omega (arith, h)) in
      let deep : k < length (chain disk part_offset bpb (n - 1) (entry c)) =
        omega (arith, h, ap length first) in
      let (small', next) = chain-first (n - 1) (entry c) (omega (arith, deep)) in
      let (c', found, rest) = skip-chain k (n - 1) (entry c) deep in
      (
        c',
        ap (λ (x : ℕ). if leb 0xFFF8 x then none else skip_loop disk part_offset bpb k x)
              (next-entry c small)
            ∙ ap (λ b. if b then none else skip_loop disk part_offset bpb k (entry c)) {y = false}
                (ground (arith, small'))
            ∙ found,
        ap (λ (m : ℕ). chain disk part_offset bpb m c') {x = n - suc k} {y = n - 1 - k}
              (omega arith)
            ∙ rest
            ∙ ap (drop (suc k)) (sym first),
      )

  copy_loop-nothing :
      (fuel c o : ℕ) → 0 < fuel → copy_loop disk part_offset bpb fuel c o 0 ≡ some []
  unfolding copy_loop
  copy_loop-nothing zero c o h = elim h [ ]
  copy_loop-nothing (suc fuel) c o h = refl

  -- A round copies up to the end of the cluster and leaves the rest of the request to the next.
  module _ (go_on : ℕ → ℕ → Option (List ℕ)) (c o t : ℕ) (B R : List ℕ)
      (whole : length B ≡ cluster_size bpb) (inside : o < cluster_size bpb)
      (stops : (k : ℕ) → go_on k 0 ≡ some [])
      (goes : cluster_size bpb - o < t
        → go_on (get_next_cluster disk part_offset bpb c) (t - (cluster_size bpb - o))
          ≡ some (take (t - (cluster_size bpb - o)) R)) where
    room : ℕ
    room = cluster_size bpb - o

    copied_part : ℕ → Option (List ℕ)
    copied_part copy =
        in_front (take copy (drop o B)) (
          go_on (if ltb 0 (t - copy) then get_next_cluster disk part_offset bpb c else c)
            (t - copy))

    length-part : length (drop o B) ≡ room
    unfolding room
    length-part = omega (arith, length-drop o B, whole)

    part-append : take t (drop o (B ++ R)) ≡ take t (drop o B ++ R)
    part-append = ap (take t) (drop-append_le o B R (omega (arith, whole, inside)))

    round-contents : copy_round disk part_offset bpb go_on c o t B ≡ some (take t (drop o (B ++ R)))
    unfolding room copied_part
    round-contents = elim (Bool-cases (ltb room t)) [
      | inl e ↦
          ap copied_part {x = if ltb t room then t else room} {y = room} (ground (arith, e))
          ∙ ap
              (λ b.
                in_front (take room (drop o B))
                  (go_on (if b then get_next_cluster disk part_offset bpb c else c) (t - room)))
              {y = true} (ground (arith, e))
          ∙ ap (in_front (take room (drop o B))) (goes (ground (arith, e)))
          ∙ ap some (
              ap (λ l. l ++ take (t - room) R)
                (take-ge room (drop o B) (omega (arith, length-part)))
              ∙ ap (λ (m : ℕ). drop o B ++ take (t - m) R) (sym length-part)
              ∙ sym (take-append_ge t (drop o B) R (ground (arith, e, length-part)))
              ∙ sym part-append)
      | inr e ↦
          ap copied_part {x = if ltb t room then t else room} {y = t} (ground (arith, e))
          ∙ ap
              (λ (m : ℕ).
                in_front (take t (drop o B))
                  (go_on (if ltb 0 m then get_next_cluster disk part_offset bpb c else c) m))
              {y = 0} (omega arith)
          ∙ ap (in_front (take t (drop o B))) (stops c)
          ∙ ap some (
              append-nil (take t (drop o B))
              ∙ sym (take-append_le t (drop o B) R (ground (arith, e, length-part)))
              ∙ sym part-append)
    ]

  some-left : (l : List ℕ) → 0 < length (bytes_of disk part_offset bpb l) → 0 < length l
  some-left [] h = elim h [ ]
  some-left (c ∷ l) h = omega arith

  pub copy_loop-contents :
      (fuel n c o t : ℕ)
      → t < fuel
      → o < cluster_size bpb
      → All (λ k. 2 ≤ k) (chain disk part_offset bpb n c)
      → o + t ≤ length (contents disk part_offset bpb n c)
      → copy_loop disk part_offset bpb fuel c o t
        ≡ some (take t (drop o (contents disk part_offset bpb n c)))
  unfolding copy_loop
  copy_loop-contents zero n c o t f h d k = elim f [ ]
  copy_loop-contents (suc fuel) n c o zero f h d k = refl
  copy_loop-contents (suc fuel) n c o (suc t) f h d k =
      let (small, first) =
        chain-first n c (some-left (chain disk part_offset bpb n c) (omega (arith, k))) in
      let clusters = chain disk part_offset bpb (n - 1) (entry c) in
      let d' = subst (All (λ j. 2 ≤ j)) first d in
      let whole = ap (bytes_of disk part_offset bpb) first in
      let R = bytes_of disk part_offset bpb clusters in
      let B = cluster_bytes disk part_offset bpb c in
      let long : o + suc t ≤ length B + length R =
        omega (arith, k, ap length whole, length-append B R) in
      let go_on : ℕ → ℕ → Option (List ℕ) =
        λ next left. copy_loop disk part_offset bpb fuel next 0 left in
      ap
        (λ b.
          if b
          then copy_read disk part_offset bpb go_on c o (suc t)
              (read_bytes disk (cluster_offset part_offset bpb c) (cluster_size bpb))
          else some [])
        {x = ltb 0 (suc t) && ltb c 0xFFF8} {y = true} (ground (arith, small))
      ∙ ap (copy_read disk part_offset bpb go_on c o (suc t))
          (read_bytes-cluster v c d'.0 (ground (arith, small)))
      ∙ round-contents go_on c o (suc t) B R (length-cluster c) h
          (λ j. copy_loop-nothing fuel j 0 (omega (arith, f)))
          (λ far.
            ap (λ (j : ℕ). go_on j (suc t - (cluster_size bpb - o))) (next-entry c small)
            ∙ copy_loop-contents fuel (n - 1) (entry c) 0 (suc t - (cluster_size bpb - o))
                (omega (arith, f, h, far)) (omega (arith, h)) d'.1
                (omega (arith, long, length-cluster c, h, far)))
      ∙ ap (λ l. some (take (suc t) (drop o l))) (sym whole)
