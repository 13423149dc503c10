-- ===== src/Handles/Tables.antt =====
-- The tables of several tasks, and one of them in front of the others.
use mboot.Prelude.{ℕ, ◌+◌, ◌≡◌, List, [], ◌∷◌, ◌++◌, arith, length, length-append, ℤ}
use mboot.Fat16.Files.{Fat16}
use mboot.Handles.Counts.{file_held, file_held-append, IsReferenced}

abbrev pub flatten : List (List ℤ) → List ℤ
flatten [] = []
flatten (t ∷ tables) = t ++ flatten tables

pub file_held-flatten :
    (i : ℕ) (before behind : List (List ℤ)) (t : List ℤ)
    → file_held i (flatten (before ++ t ∷ behind))
      ≡ file_held i t + file_held i (flatten (before ++ behind))
file_held-flatten i [] behind t = file_held-append i t (flatten behind)
file_held-flatten i (b ∷ before) behind t = omega (
  arith,
  file_held-append i b (flatten (before ++ t ∷ behind)),
  file_held-append i b (flatten (before ++ behind)),
  file_held-flatten i before behind t,
)

pub length-flatten :
    (before behind : List (List ℤ)) (t : List ℤ)
    → length (flatten (before ++ t ∷ behind)) ≡ length t + length (flatten (before ++ behind))
length-flatten [] behind t = length-append t (flatten behind)
length-flatten (b ∷ before) behind t = omega (
  arith,
  length-append b (flatten (before ++ t ∷ behind)),
  length-append b (flatten (before ++ behind)),
  length-flatten before behind t,
)

module _ (before behind : List (List ℤ)) where
  abbrev pub others : List ℤ
  others = flatten (before ++ behind)

  -- The table of the calling task in front of the others.
  pub in_front :
      (t : List ℤ) {st : Fat16}
      → IsReferenced (flatten (before ++ t ∷ behind)) st
      → IsReferenced (t ++ others) st
  in_front t h = record {
    table = h.table;
    refs = λ i. omega (
      arith,
      h.refs i,
      file_held-append i t (flatten (before ++ behind)),
      file_held-flatten i before behind t,
    );
  }

  pub in_place :
      (t : List ℤ) {st : Fat16}
      → IsReferenced (t ++ others) st
      → IsReferenced (flatten (before ++ t ∷ behind)) st
  in_place t h = record {
    table = h.table;
    refs = λ i. omega (
      arith,
      h.refs i,
      file_held-append i t (flatten (before ++ behind)),
      file_held-flatten i before behind t,
    );
  }
