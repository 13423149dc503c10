-- ===== src/Dev/Tty/Screen.antt =====
-- What tty_write keeps: the cursor and the cells of a terminal, and what the screen shows.
use mboot.Prelude.{
  ℕ, zero, suc, ◌+◌, ◌-◌, ◌*◌, ◌≤◌, ◌<◌, ◌≡◌, refl, ap, ◌∙◌, arith, ◌⊎◌, Bool, List, ◌++◌, length,
  take, drop, length-set, length-append, length-take, length-drop, if◌then◌else◌, if-All, ◌==◌, leb,
  ltb, leb→le,
}
use mboot.Dev.Vga.{fill_blank}
use mboot.Dev.Tty.{
  Tty, View, tty_clear, tty_render, tty_put_cell, move_words, move_rows, tty_scroll,
  tty_switch_char, tty_wrap, tty_print, place,
}

pub length-fill_blank :
    (start n : ℕ) (cells : List ℕ) → length (fill_blank start n cells) ≡ length cells
unfolding fill_blank
length-fill_blank start zero cells = refl
length-fill_blank start (suc n) cells =
    length-set (fill_blank start n cells) (start + n) _ ∙ length-fill_blank start n cells

length-move_words :
    (to from n : ℕ) (cells : List ℕ)
    → to ≤ from
    → from + n ≤ length cells
    → length (move_words to from n cells) ≡ length cells
length-move_words to from n cells h k =
    length-append (take to cells ++ take n (drop from cells)) (drop (to + n) cells)
    ∙ omega (
      arith,
      length-append (take to cells) (take n (drop from cells)),
      length-take to cells,
      length-take n (drop from cells),
      length-drop from cells,
      length-drop (to + n) cells,
    )

length-move_rows :
    (n : ℕ) (cells : List ℕ) → suc n * 80 ≤ length cells → length (move_rows n cells) ≡ length cells
unfolding move_rows
length-move_rows zero cells h = refl
length-move_rows (suc n) cells h =
    let rest = length-move_rows n cells (omega (arith, h)) in
    length-move_words (n * 80) (suc n * 80) 80 (move_rows n cells) (omega arith)
      (omega (arith, h, rest))
    ∙ rest

-- The cursor is on the screen, and there is a cell for each of its places.
pub record IsOnScreen (tty : Tty) : Type 0 where
  pub cells : length tty.cells ≡ 2000
  pub column : tty.cur_x < 80
  pub row : tty.cur_y < 25

-- Between the switch and the wrap.
record IsMoved (tty : Tty) : Type 0 where
  cells : length tty.cells ≡ 2000
  column : tty.cur_x ≤ 80
  row : tty.cur_y ≤ 25
  at_end : tty.cur_x ≡ 80 → tty.cur_y < 25

module _ (active : Bool) (c : ℕ) (v : View) (h : IsOnScreen v.tty) where
  switch-IsMoved : IsMoved (tty_switch_char active c v).tty
  unfolding tty_switch_char tty_put_cell tty_clear tty_render
  switch-IsMoved =
      if-All P (c == 10) (λ e. moved h.cells (omega arith) (omega (arith, h.row)))
        (λ e.
          if-All P (c == 13) (λ e. moved h.cells (omega arith) (omega (arith, h.row)))
            (λ e.
              if-All P (c == 8)
                (λ e.
                  if-All P (ltb 0 v.tty.cur_x)
                    (λ e.
                      moved
                        (written (v.tty.cur_x - 1) 32 (place (v.tty.cur_x - 1) v.tty.cur_y v)
                          h.cells)
                        (omega (arith, h.column)) (omega (arith, h.row)))
                    (λ e. moved h.cells (omega (arith, h.column)) (omega (arith, h.row))))
                (λ e.
                  if-All P (c == 9)
                    (λ e. moved h.cells (omega (arith, h.column)) (omega (arith, h.row)))
                    (λ e.
                      if-All P (c == 12) (λ e. if-All P active (λ e. cleared) (λ e. cleared))
                        (λ e.
                          moved (written v.tty.cur_x c v h.cells) (omega (arith, h.column))
                            (omega (arith, h.row)))))))
    where
      P : View → Type 0
      P v = IsMoved v.tty

      moved :
          {tty : Tty}
          → length tty.cells ≡ 2000
          → tty.cur_x ≤ 80
          → (tty.cur_y < 25) ⊎ ((tty.cur_y ≡ 25) × (tty.cur_x ≡ 0))
          → IsMoved tty
      moved a b k = record {
        cells = a;
        column = b;
        row = omega (arith, k);
        at_end = λ e. omega (arith, k, e);
      }

      written :
          (x d : ℕ) (w : View)
          → length w.tty.cells ≡ 2000
          → length (tty_put_cell active x v.tty.cur_y d w).tty.cells ≡ 2000
      written x d w l = length-set w.tty.cells (v.tty.cur_y * 80 + x) _ ∙ l

      cleared : IsMoved (tty_clear v.tty)
      cleared = record {
        cells = length-fill_blank 0 2000 v.tty.cells ∙ h.cells;
        column = omega arith;
        row = omega arith;
        at_end = λ e. omega arith;
      }

wrap-IsMoved : (v : View) → IsMoved v.tty → (tty_wrap v).tty.cur_x < 80
wrap-IsMoved v h =
    if-All (λ (w : View). w.tty.cur_x < 80) (leb 80 v.tty.cur_x) (λ e. omega arith)
      (λ e. ground (arith, e))

wrap-row : (v : View) → IsMoved v.tty → (tty_wrap v).tty.cur_y ≤ 25
wrap-row v h =
    if-All (λ (w : View). w.tty.cur_y ≤ 25) (leb 80 v.tty.cur_x)
      (λ e. omega (arith, h.at_end (omega (arith, h.column, leb→le 80 v.tty.cur_x e)))) (λ e. h.row)

wrap-cells : (v : View) → (tty_wrap v).tty.cells ≡ v.tty.cells
wrap-cells v =
    if-All (λ (w : View). w.tty.cells ≡ v.tty.cells) (leb 80 v.tty.cur_x) (λ e. refl) (λ e. refl)

-- The last rows, once the others have moved up.
abbrev pub scrolled : List ℕ → List ℕ
scrolled cells = fill_blank 1920 80 (move_rows 24 cells)

scroll-IsOnScreen :
    (active : Bool) (v : View)
    → length v.tty.cells ≡ 2000
    → v.tty.cur_x < 80
    → IsOnScreen (tty_scroll active v).tty
unfolding tty_scroll tty_render
scroll-IsOnScreen active v h k =
    if-All (λ (w : View). IsOnScreen w.tty) active (λ e. kept) (λ e. kept)
  where
    kept : IsOnScreen (record v.tty { cells = scrolled v.tty.cells; cur_y = 24 })
    kept = record {
      cells =
          length-fill_blank 1920 80 (move_rows 24 v.tty.cells)
          ∙ length-move_rows 24 v.tty.cells (omega (arith, h))
          ∙ h;
      column = k;
      row = omega arith;
    }

-- From a cursor on the screen of 80 by 25 places and a cell for each place, whatever character a
-- terminal is given leaves its cursor on the screen, and one cell for each place.
pub tty_print-IsOnScreen :
    (active : Bool) (c : ℕ) (v : View) → IsOnScreen v.tty → IsOnScreen (tty_print active c v).tty
unfolding tty_print
tty_print-IsOnScreen active c v h =
    if-All (λ (w : View). IsOnScreen w.tty) active (λ e. kept) (λ e. kept)
  where
    wrapped : View
    wrapped = tty_wrap (tty_switch_char active c v)

    moved : IsMoved (tty_switch_char active c v).tty
    moved = switch-IsMoved active c v h

    still : length wrapped.tty.cells ≡ 2000
    still = ap length (wrap-cells (tty_switch_char active c v)) ∙ moved.cells

    kept : IsOnScreen (if leb 25 wrapped.tty.cur_y then tty_scroll active wrapped else wrapped).tty
    kept =
        if-All (λ (w : View). IsOnScreen w.tty) (leb 25 wrapped.tty.cur_y)
          (λ e.
            scroll-IsOnScreen active wrapped still
              (wrap-IsMoved (tty_switch_char active c v) moved))
          (λ e. record {
            cells = still;
            column = wrap-IsMoved (tty_switch_char active c v) moved;
            row = ground (arith, e);
          })
