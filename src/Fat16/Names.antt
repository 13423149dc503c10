-- ===== src/Fat16/Names.antt =====
-- The names in the directories of stage2/fat16.c, and strcasecmp of stage2/utils.c.
--
-- A name in a buffer is the list of the bytes in front of its terminator.
pub mod Compare
pub mod Short
use mboot.Prelude.{
  ℕ, zero, suc, ◌+◌, ◌-◌, ◌%◌, ◌^◌, Bool, true, false, ◌&&◌, ◌||◌, List, [], ◌∷◌, ◌++◌, ◌==◌, ltb,
  leb, if◌then◌else◌, take, drop, map, length, get_or, ℤ, pos, negsuc, opposite,
}
use mboot.Fat16.Volume.{byte_at, word_at, dword_at}

-- `dir_t`, the fields that are read.
pub record Dir : Type 0 where
  pub name : List ℕ
  pub attr : ℕ
  pub fst_clus_lo : ℕ
  pub file_size : ℕ

-- `lfn_entry_t`, the fields that are read.
pub record LfnEntry : Type 0 where
  pub name1 : List ℕ
  pub name2 : List ℕ
  pub name3 : List ℕ

-- A pointer into the buffer, read as an entry by the offsets of the packed fields.
unfoldable pub dir_of : List ℕ → Dir
dir_of entry = record {
  name = take 11 entry;
  attr = byte_at entry 11;
  fst_clus_lo = word_at entry 26;
  file_size = dword_at entry 28;
}

abbrev pub words_at : List ℕ → ℕ → ℕ → List ℕ
words_at entry i zero = []
words_at entry i (suc n) = word_at entry i ∷ words_at entry (i + 2) n

unfoldable pub lfn_of : List ℕ → LfnEntry
lfn_of entry = record {
  name1 = words_at entry 1 5;
  name2 = words_at entry 14 6;
  name3 = words_at entry 28 2;
}

-- One of the three loops over a field, on what is written so far; the flag is `done`. The limit is
-- outsize - 1.
unfoldable pub copy_units : (limit : ℕ) → List ℕ → List ℕ → Bool × List ℕ
copy_units limit [] out = (false, out)
copy_units limit (c ∷ units) out =
    let rest = copy_units limit units (out ++ (c % 2 ^ 8) ∷ []) in
    if (c == 0) || ((c == 0xFFFF) || leb limit (length out)) then (true, out) else rest

abbrev pub unless_done : (List ℕ → Bool × List ℕ) → Bool × List ℕ → Bool × List ℕ
unless_done f (true, out) = (true, out)
unless_done f (false, out) = f out

unfoldable pub copy_entry : (limit : ℕ) → LfnEntry → List ℕ → Bool × List ℕ
unfolding copy_units
copy_entry limit e out =
    unless_done (copy_units limit e.name3)
      (unless_done (copy_units limit e.name2) (copy_units limit e.name1 out))

abbrev pub no_entry : LfnEntry
no_entry = record { name1 = []; name2 = []; name3 = [] }

-- The entries stand in the order of the directory, and are copied from the last to the first.
unfoldable pub lfn_loop : (limit i : ℕ) → List LfnEntry → List ℕ → Bool × List ℕ
unfolding copy_entry
lfn_loop limit zero lfn_entries out = (false, out)
lfn_loop limit (suc i) lfn_entries out =
    unless_done (lfn_loop limit i lfn_entries)
      (copy_entry limit (get_or lfn_entries i no_entry) out)

unfoldable pub get_lfn_name : List LfnEntry → (outsize : ℕ) → List ℕ
unfolding lfn_loop
get_lfn_name lfn_entries outsize = (lfn_loop (outsize - 1) (length lfn_entries) lfn_entries []).1

-- A blank of a short name becomes a terminator.
abbrev pub unblank : ℕ → ℕ
unblank c = if c == 32 then 0 else c

-- A string is copied up to its terminator or the limit.
unfoldable pub copy_chars : (limit : ℕ) → List ℕ → List ℕ → List ℕ
copy_chars limit [] out = out
copy_chars limit (c ∷ chars) out =
    let rest = copy_chars limit chars (out ++ c ∷ []) in
    if (c == 0) || leb limit (length out) then out else rest

abbrev pub joined : (limit : ℕ) → (name ext : List ℕ) → List ℕ
joined limit name ext =
    let out = copy_chars limit name [] in
    if (byte_at ext 0 == 0) || leb limit (length out)
    then out
    else copy_chars limit ext (out ++ 46 ∷ [])

unfoldable pub short_name : Dir → (outsize : ℕ) → List ℕ
unfolding copy_chars
short_name dir outsize =
    joined (outsize - 1) (map unblank (take 8 dir.name)) (map unblank (take 3 (drop 8 dir.name)))

unfoldable pub get_file_name : Dir → List LfnEntry → (outsize : ℕ) → List ℕ
unfolding get_lfn_name short_name
get_file_name dir lfn_entries outsize =
    if ltb 0 (length lfn_entries) then get_lfn_name lfn_entries outsize else short_name dir outsize

unfoldable pub tolower : ℕ → ℕ
tolower c = if leb 65 c && leb c 90 then c + 32 else c

-- `c1 - c2`
abbrev pub difference : ℕ → ℕ → ℤ
difference a b = if leb b a then pos (a - b) else opposite (b - a)

-- The end of a list is the terminator, as is a byte 0 in it.
unfoldable pub strcasecmp : List ℕ → List ℕ → ℤ
unfolding tolower
strcasecmp [] [] = pos 0
strcasecmp [] (d ∷ t) = difference 0 d
strcasecmp (c ∷ s) [] = difference c 0
strcasecmp (c ∷ s) (d ∷ t) =
    let rest = strcasecmp s t in
    if (c == 0) || (d == 0)
    then difference c d
    else if tolower c == tolower d
    then rest
    else difference (tolower c) (tolower d)
