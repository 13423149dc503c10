-- ===== src/Fat16/Directory/Search.antt =====
-- What the search of a directory finds.
use mathlib.Core.Path.{subst}
use mboot.Fat16.Volume.{byte_at}
use mboot.Prelude.{
  ℕ, zero, suc, ◌≤◌, ◌<◌, ◌≡◌, refl, ap, ◌∙◌, sym, Bool, true, false, ◌&&◌, not, Option, none, some,
  List, [], ◌∷◌, ◌++◌, ◌==◌, ==_iff, if◌then◌else◌, if-All, arith, drop, map, length, All, All-map,
  All-append, append_assoc, ◌⊎◌, inl, inr, ◌↔◌, ℤ, pos, negsuc,
}
use mboot.Fat16.Names.{Dir, dir_of, lfn_of, get_file_name, tolower, strcasecmp}
use mboot.Fat16.Names.Compare.{IsString, strcasecmp_iff}
use mboot.Fat16.Names.Short.{IsField, dotted, drop-first, short_name-dotted}
use mboot.Fat16.Directory.{is_directory, is_pos_zero, scan, scan_entry}
use mboot.Fat16.Directory.Entries.{
  ShortEntry, IsShort, base_of, short_bytes, listed, length-short_bytes, dir_of-short_bytes,
}

-- An entry of a directory: a short one, or one that is deleted.
pub data Item : Type 0 where
  short : ShortEntry → Item
  deleted : List ℕ → Item

abbrev pub IsItem : Item → Type 0
IsItem (short e) = IsShort e
IsItem (deleted bytes) = length bytes ≡ 31

abbrev pub item_bytes : Item → List ℕ
item_bytes (short e) = short_bytes e
item_bytes (deleted bytes) = 0xE5 ∷ bytes

abbrev pub directory_bytes : List Item → List ℕ
directory_bytes [] = []
directory_bytes (item ∷ items) = item_bytes item ++ directory_bytes items

-- A file, and its name is the target up to the case of letters.
abbrev pub Matches : List ℕ → ShortEntry → Type 0
Matches target e =
    (is_directory (listed e) ≡ false)
    × (map tolower (dotted (base_of e) e.ext) ≡ map tolower target)

-- The first entry that matches, none when there is none.
abbrev pub FirstMatch : List ℕ → List Item → Option Dir → Type 0
FirstMatch target [] found = found ≡ none
FirstMatch target (deleted bytes ∷ items) found = FirstMatch target items found
FirstMatch target (short e ∷ items) found =
    (Matches target e × (found ≡ some (listed e)))
    ⊎ ((Matches target e → ⊥) × FirstMatch target items found)

abbrev is_match : List ℕ → ShortEntry → Bool
is_match target e =
    not (is_directory (listed e)) && is_pos_zero (strcasecmp (dotted (base_of e) e.ext) target)

is_pos_zero_iff : (z : ℤ) → (is_pos_zero z ≡ true) ↔ (z ≡ pos 0)
is_pos_zero_iff (pos zero) = (λ e. refl, λ e. refl)
is_pos_zero_iff (pos (suc n)) = (λ e. cc, λ e. cc)
is_pos_zero_iff (negsuc n) = (λ e. cc, λ e. cc)

both : (b c : Bool) → not b && c ≡ true → (b ≡ false) × (c ≡ true)
both true c e = cc
both false c e = (refl, e)

field-IsString : (cs : List ℕ) → IsField cs → IsString cs
field-IsString cs f = All-map cs (λ c h. omega (arith, h)) f

dotted-IsString : (base ext : List ℕ) → IsField base → IsField ext → IsString (dotted base ext)
dotted-IsString base [] f g = field-IsString base f
dotted-IsString base (c ∷ ext) f g =
    All-append (λ k. 0 < k) base (46 ∷ c ∷ ext) (field-IsString base f)
      (omega arith, field-IsString (c ∷ ext) g)

is_match_iff :
    (target : List ℕ) (e : ShortEntry)
    → IsString target
    → IsShort e
    → (is_match target e ≡ true) ↔ Matches target e
is_match_iff target e t s =
    let name = dotted (base_of e) e.ext in
    let same = is_pos_zero_iff (strcasecmp name target) in
    let equal = strcasecmp_iff name target (dotted-IsString (base_of e) e.ext s.base s.ext) t in
    (
      λ m.
          let (file, equals) =
            both (is_directory (listed e)) (is_pos_zero (strcasecmp name target)) m in
          (file, equal.0 (same.0 equals)),
      λ (file, names).
          ap (λ b. not b && is_pos_zero (strcasecmp name target)) file ∙ same.1 (equal.1 names),
    )

scan-short :
    (target : List ℕ) (n : ℕ) (e : ShortEntry) (rest : List ℕ)
    → IsShort e
    → scan target (suc n) (short_bytes e ++ rest) []
      ≡ (if is_match target e then some (listed e) else scan target n rest [])
unfolding scan get_file_name
scan-short target n e rest s =
    let buffer = short_bytes e ++ rest in
    let name = listed e in
    ap (λ d. scan_entry target (scan target n (drop 32 buffer)) e.first d (lfn_of buffer) [])
      (dir_of-short_bytes e s rest)
    ∙ ap (λ l. scan_entry target (scan target n l) e.first (listed e) (lfn_of buffer) [])
        (drop-first 32 (short_bytes e) rest (length-short_bytes e s))
    ∙ if-All (λ r. r ≡ (if is_match target e then some (listed e) else scan target n rest []))
        (e.first == 0) (λ t. absurd (ground (arith, t, s.base.0)))
        (λ t.
          if-All (λ r. r ≡ (if is_match target e then some (listed e) else scan target n rest []))
            (e.first == 0xE5) (λ u. absurd (s.kept ((==_iff e.first 0xE5).0 u)))
            (λ u.
              if-All
                (λ r. r ≡ (if is_match target e then some (listed e) else scan target n rest []))
                (e.attr == 0x0F) (λ w. absurd (s.attr ((==_iff e.attr 0x0F).0 w)))
                (λ w.
                  ap
                    (λ l.
                      if not (is_directory (listed e)) && is_pos_zero (strcasecmp l target)
                      then some (listed e)
                      else scan target n rest [])
                    (short_name-dotted (base_of e) e.ext (listed e) s.base s.ext s.short s.ext_short
                      refl))))

different : (b : Bool) → b ≡ false → b ≡ true → ⊥
different true e k = cc
different false e k = cc

scan-zero : (target buffer : List ℕ) → scan target zero buffer [] ≡ none
unfolding scan
scan-zero target buffer = refl

scan-end :
    (target : List ℕ) (n : ℕ) (rest : List ℕ)
    → byte_at rest 0 ≡ 0
    → scan target (suc n) rest [] ≡ none
unfolding scan
scan-end target n rest end =
    ap
      (λ (c : ℕ). scan_entry target (scan target n (drop 32 rest)) c (dir_of rest) (lfn_of rest) [])
      end

scan-deleted :
    (target : List ℕ) (n : ℕ) (bytes more rest : List ℕ)
    → length bytes ≡ 31
    → scan target (suc n) (((0xE5 ∷ bytes) ++ more) ++ rest) [] ≡ scan target n (more ++ rest) []
unfolding scan
scan-deleted target n bytes more rest h =
    ap (λ l. scan target n l [])
      (ap (drop 31) (append_assoc bytes more rest) ∙ drop-first 31 bytes (more ++ rest) h)

-- The search of a directory, and of what follows its entries, finds the first file whose name is the
-- target.
pub scan-FirstMatch :
    (target : List ℕ) (n : ℕ) (items : List Item) (rest : List ℕ)
    → IsString target
    → All IsItem items
    → length items ≤ n
    → byte_at rest 0 ≡ 0
    → FirstMatch target items (scan target n (directory_bytes items ++ rest) [])
scan-FirstMatch target zero [] rest t a h end = scan-zero target rest
scan-FirstMatch target (suc n) [] rest t a h end = scan-end target n rest end
scan-FirstMatch target zero (item ∷ items) rest t a h end = absurd (omega (arith, h))
scan-FirstMatch target (suc n) (deleted bytes ∷ items) rest t a h end =
    subst (FirstMatch target items)
      (sym (scan-deleted target n bytes (directory_bytes items) rest a.0))
      (scan-FirstMatch target n items rest t a.1 (omega (arith, h)) end)
scan-FirstMatch target (suc n) (short e ∷ items) rest t a h end =
    subst
      (λ r.
        (Matches target e × (r ≡ some (listed e)))
        ⊎ ((Matches target e → ⊥) × FirstMatch target items r))
      (sym (
        ap (λ l. scan target (suc n) l [])
          (append_assoc (short_bytes e) (directory_bytes items) rest)
        ∙ scan-short target n e (directory_bytes items ++ rest) a.0))
      (if-All
        (λ r.
          (Matches target e × (r ≡ some (listed e)))
          ⊎ ((Matches target e → ⊥) × FirstMatch target items r))
        (is_match target e) (λ m. inl ((is_match_iff target e t a.0).0 m, refl))
        (λ m. inr (
          λ found. absurd (different (is_match target e) m ((is_match_iff target e t a.0).1 found)),
          scan-FirstMatch target n items rest t a.1 (omega (arith, h)) end,
        )))
