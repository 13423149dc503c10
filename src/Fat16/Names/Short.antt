-- ===== src/Fat16/Names/Short.antt =====
-- The name that get_file_name reads from a short entry.
use mboot.Prelude.{
  ℕ, zero, suc, ◌+◌, ◌-◌, ◌≤◌, ◌<◌, ◌≡◌, refl, ap, ◌∙◌, sym, false, ◌||◌, List, [], ◌∷◌, ◌++◌, ◌==◌,
  leb, if◌then◌else◌, arith, take, drop, map, length, take-append_le, take-ge, drop-append_ge,
  length-append, length-replicate, replicate, All, append_assoc, append-nil,
}
use mboot.Fat16.Names.{Dir, unblank, copy_chars, joined, short_name}

-- A field of a fixed size, filled with blanks.
abbrev pub pad : ℕ → List ℕ → List ℕ
pad n cs = cs ++ replicate (n - length cs) 32

-- Characters that can stand in a field.
abbrev pub IsField : List ℕ → Type 0
IsField cs = All (λ c. 32 < c) cs

-- The name of a base and an extension.
abbrev pub dotted : (base ext : List ℕ) → List ℕ
dotted base [] = base
dotted base (c ∷ ext) = base ++ 46 ∷ c ∷ ext

unblank-field :
    (cs : List ℕ) (k : ℕ) → IsField cs → map unblank (cs ++ replicate k 32) ≡ cs ++ replicate k 0
unblank-field [] zero h = refl
unblank-field [] (suc k) h = ap (λ l. 0 ∷ l) (unblank-field [] k tt)
unblank-field (c ∷ cs) k h =
    ap (λ b. (if b then 0 else c) ∷ map unblank (cs ++ replicate k 32)) {x = c == 32} {y = false}
      (ground (arith, h.0))
    ∙ ap (λ l. c ∷ l) (unblank-field cs k h.1)

copy_chars-field :
    (limit : ℕ) (cs out : List ℕ) (k : ℕ)
    → IsField cs
    → length out + length cs ≤ limit
    → copy_chars limit (cs ++ replicate k 0) out ≡ out ++ cs
unfolding copy_chars
copy_chars-field limit [] out zero h b = sym (append-nil out)
copy_chars-field limit [] out (suc k) h b = sym (append-nil out)
copy_chars-field limit (c ∷ cs) out k h b =
    let long = length-append out (c ∷ []) in
    ap (λ t. if t then out else copy_chars limit (cs ++ replicate k 0) (out ++ c ∷ []))
      {x = (c == 0) || leb limit (length out)} {y = false} (ground (arith, h.0, b))
    ∙ copy_chars-field limit cs (out ++ c ∷ []) k h.1 (omega (arith, b, long))
    ∙ append_assoc out (c ∷ []) cs

pub length-pad : (n : ℕ) (cs : List ℕ) → length cs ≤ n → length (pad n cs) ≡ n
length-pad n cs h = omega (
  arith,
  length-append cs (replicate (n - length cs) 32),
  length-replicate (n - length cs) (let blank : ℕ = 32 in blank),
)

pub take-first : (n : ℕ) (xs ys : List ℕ) → length xs ≡ n → take n (xs ++ ys) ≡ xs
take-first n xs ys h = take-append_le n xs ys (omega (arith, h)) ∙ take-ge n xs (omega (arith, h))

pub drop-first : (n : ℕ) (xs ys : List ℕ) → length xs ≡ n → drop n (xs ++ ys) ≡ ys
drop-first n xs ys h =
    drop-append_ge n xs ys (omega (arith, h)) ∙ ap (λ (k : ℕ). drop k ys) {y = 0} (omega (arith, h))

joined-dotted :
    (base ext : List ℕ) (j k : ℕ)
    → IsField base
    → IsField ext
    → length base ≤ 8
    → length ext ≤ 3
    → joined 255 (base ++ replicate j 0) (ext ++ replicate k 0) ≡ dotted base ext
joined-dotted base [] j zero f g b e = copy_chars-field 255 base [] j f (omega (arith, b))
joined-dotted base [] j (suc k) f g b e = copy_chars-field 255 base [] j f (omega (arith, b))
joined-dotted base (c ∷ ext) j k f g b e =
    let name = base ++ replicate j 0 in
    let ending = (c ∷ ext) ++ replicate k 0 in
    let out = copy_chars-field 255 base [] j f (omega (arith, b)) in
    ap
      (λ (o : List ℕ).
        if (c == 0) || leb 255 (length o) then o else copy_chars 255 ending (o ++ 46 ∷ []))
      {x = copy_chars 255 name []} out
    ∙ ap (λ t. if t then base else copy_chars 255 ending (base ++ 46 ∷ []))
        {x = (c == 0) || leb 255 (length base)} {y = false} (ground (arith, g.0, b))
    ∙ copy_chars-field 255 (c ∷ ext) (base ++ 46 ∷ []) k g
        (omega (arith, b, e, length-append base (let dot : List ℕ = 46 ∷ [] in dot)))
    ∙ append_assoc base (46 ∷ []) (c ∷ ext)

pub short_name-dotted :
    (base ext : List ℕ) (dir : Dir)
    → IsField base
    → IsField ext
    → length base ≤ 8
    → length ext ≤ 3
    → dir.name ≡ pad 8 base ++ pad 3 ext
    → short_name dir 256 ≡ dotted base ext
unfolding short_name
short_name-dotted base ext dir f g b e n =
    ap (λ l. joined 255 (map unblank (take 8 l)) (map unblank (take 3 (drop 8 l)))) n
    ∙ ap (λ l. joined 255 (map unblank l) (map unblank (take 3 (drop 8 (pad 8 base ++ pad 3 ext)))))
        (take-first 8 (pad 8 base) (pad 3 ext) (length-pad 8 base b))
    ∙ ap (λ l. joined 255 (map unblank (pad 8 base)) (map unblank (take 3 l)))
        (drop-first 8 (pad 8 base) (pad 3 ext) (length-pad 8 base b))
    ∙ ap (λ l. joined 255 (map unblank (pad 8 base)) (map unblank l))
        (take-ge 3 (pad 3 ext) (omega (arith, length-pad 3 ext e)))
    ∙ ap (λ l. joined 255 l (map unblank (pad 3 ext))) (unblank-field base (8 - length base) f)
    ∙ ap (joined 255 (base ++ replicate (8 - length base) 0)) (unblank-field ext (3 - length ext) g)
    ∙ joined-dotted base ext (8 - length base) (3 - length ext) f g b e
