-- ===== src/Vfs.antt =====
-- The paths of stage2/vfs.c: their normal form, and the port number in the name of a UDP device. The
-- modules below have its descriptors.
--
-- A string is the list of its characters up to the terminator.
pub mod Paths
pub mod Ports
pub mod Backends
pub mod Fds
pub mod Devices
pub mod Opens
pub mod Names
pub mod Refs
pub mod Counts
pub mod Balance
pub mod Uncounted
pub mod Effects
pub mod Conserved
pub mod Operations
pub mod Opening
pub mod Overlap
mod Tests
use mboot.Prelude.{
  ℕ, ◌+◌, ◌-◌, ◌*◌, Bool, true, false, ◌&&◌, Option, none, some, List, [], ◌∷◌, ◌==◌, ltb, leb,
  if◌then◌else◌,
}

abbrev pub slash : ℕ
slash = 47

abbrev pub dot : ℕ
dot = 46

unfoldable pub normalize_path : List ℕ → List ℕ
normalize_path [] = []
normalize_path (c ∷ []) = if c == slash then [] else c ∷ []
normalize_path (c ∷ d ∷ rest) =
    let behind_one = normalize_path (d ∷ rest) in
    let behind_two = normalize_path rest in
    if c == slash
    then behind_one
    else if (c == dot) && (d == slash)
    then behind_two
    else c ∷ d ∷ rest

unfoldable pub path_eq : List ℕ → List ℕ → Bool
path_eq [] [] = true
path_eq [] (b ∷ right) = false
path_eq (a ∷ left) [] = false
path_eq (a ∷ left) (b ∷ right) = let rest = path_eq left right in if a == b then rest else false

unfoldable pub path_has_prefix : List ℕ → List ℕ → Bool
path_has_prefix path [] = true
path_has_prefix [] (p ∷ ps) = false
path_has_prefix (c ∷ path) (p ∷ ps) =
    let rest = path_has_prefix path ps in if c == p then rest else false

abbrev pub is_digit : ℕ → Bool
is_digit c = leb 48 c && leb c 57

-- The loop of parse_uint16, which has read `digits` digits.
unfoldable pub parse_digits : (value digits : ℕ) → List ℕ → Option ℕ
parse_digits value digits [] = if digits == 0 then none else some value
parse_digits value digits (c ∷ s) =
    let rest = parse_digits (value * 10 + (c - 48)) (digits + 1) s in
    if is_digit c then if ltb 65535 (value * 10 + (c - 48)) then none else rest else none

unfoldable pub parse_uint16 : List ℕ → Option ℕ
parse_uint16 s = parse_digits 0 0 s
