-- ===== src/Vfs/Paths.antt =====
-- What normalize_path, path_eq and path_has_prefix decide.
use mathlib.Core.List.{nil≢cons, head-eq_of_cons-eq, tail-eq_of_cons-eq}
use mboot.Prelude.{
  ℕ, ◌≡◌, ◌≢◌, refl, sym, ap, ◌∙◌, true, false, List, [], ◌∷◌, ◌++◌, ◌==◌, ==_iff, arith,
  Bool-cases, inl, inr, ◌⊎◌, ◌↔◌, ◌&&◌,
}
use mboot.Vfs.{slash, dot, normalize_path, path_eq}

-- No character to skip at the front.
abbrev pub Normal : List ℕ → Type 0
Normal [] = Unit
Normal (c ∷ []) = c ≢ slash
Normal (c ∷ d ∷ rest) = (c ≢ slash) × ((c ≢ dot) ⊎ (d ≢ slash))

-- Only whole "/" and "./" prefixes stand before the normal form.
abbrev pub Skipped : List ℕ → Type 0
Skipped [] = Unit
Skipped (c ∷ []) = c ≡ slash
Skipped (c ∷ d ∷ rest) =
    ((c ≡ slash) × Skipped (d ∷ rest)) ⊎ ((c ≡ dot) × (d ≡ slash) × Skipped rest)

Skipped-slash : (pre : List ℕ) → Skipped pre → Skipped (slash ∷ pre)
Skipped-slash [] h = refl
Skipped-slash (c ∷ pre) h = inl (refl, h)

both : (c d : ℕ) → (c == dot) && (d == slash) ≡ true → (c ≡ dot) × (d ≡ slash)
both c d e = ground arith

one_not : (c d : ℕ) → (c == dot) && (d == slash) ≡ false → (c ≢ dot) ⊎ (d ≢ slash)
one_not c d e = elim (Bool-cases (c == dot)) [
  | inl k ↦ inr (λ j. ground (arith, e, k, (==_iff d slash).1 j))
  | inr k ↦ inl (λ j. ground (arith, k, (==_iff c dot).1 j))
]

-- normalize_path drops leading "/" and "./", nothing else, and leaves none of them in front.
pub normalize_path-Normal :
    (path : List ℕ)
    → Normal (normalize_path path)
      × ((pre : List ℕ) × (path ≡ pre ++ normalize_path path) × Skipped pre)
unfolding normalize_path
normalize_path-Normal [] = (tt, ([], refl, tt))
normalize_path-Normal (c ∷ []) = elim (Bool-cases (c == slash)) [
  | inl e ↦ rw e (tt, (c ∷ [], refl, (==_iff c slash).0 e))
  | inr e ↦ rw e ((λ k. ground (arith, e, (==_iff c slash).1 k)), ([], refl, tt))
]
normalize_path-Normal (c ∷ d ∷ rest) = elim (Bool-cases (c == slash)) [
  | inl e ↦
      let (n, (pre, p, k)) = normalize_path-Normal (d ∷ rest) in
      rw e (
        n,
        (
          slash ∷ pre,
          ap (λ x. x ∷ d ∷ rest) ((==_iff c slash).0 e) ∙ ap (λ l. slash ∷ l) p,
          Skipped-slash pre k,
        ),
      )
  | inr e ↦ elim (Bool-cases ((c == dot) && (d == slash))) [
    | inl f ↦
        let (n, (pre, p, k)) = normalize_path-Normal rest in
        rw (e, f)
          (n, (c ∷ d ∷ pre, ap (λ l. c ∷ d ∷ l) p, let (x, y) = both c d f in inr (x, y, k)))
    | inr f ↦
        rw (e, f) (((λ k. ground (arith, e, (==_iff c slash).1 k)), one_not c d f), ([], refl, tt))
  ]
]

-- path_eq decides the equality of two paths.
pub path_eq_iff : (a b : List ℕ) → (path_eq a b ≡ true) ↔ (a ≡ b)
unfolding path_eq
path_eq_iff [] [] = ((λ e. refl), λ e. refl)
path_eq_iff [] (b ∷ right) = ((λ e. ground (arith, e)), λ e. absurd (nil≢cons e))
path_eq_iff (a ∷ left) [] = ((λ e. ground (arith, e)), λ e. absurd (nil≢cons (sym e)))
path_eq_iff (a ∷ left) (b ∷ right) =
    let (to, from) = path_eq_iff left right in
    elim (Bool-cases (a == b)) [
      | inl e ↦ rw e (
        (λ k. ap (λ x. x ∷ left) ((==_iff a b).0 e) ∙ ap (λ l. b ∷ l) (to k)),
        λ k. from (tail-eq_of_cons-eq k),
      )
      | inr e ↦
          rw e (
            (λ k. ground (arith, k)),
            λ k. ground (arith, e, (==_iff a b).1 (head-eq_of_cons-eq k)),
          )
    ]
