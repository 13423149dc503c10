-- ===== src/Dev/Tty/Shown.antt =====
-- The active terminal is what the screen shows; the others leave the screen alone.
use mboot.Prelude.{
  ℕ, ◌+◌, ◌-◌, ◌*◌, ◌≡◌, refl, ap, true, false, set, ◌==◌, leb, ltb, if◌then◌else◌, if-All,
}
use mboot.Dev.Vga.{Vga, cell, vga_move_cursor, vga_draw_buffer, vga_put_char}
use mboot.Dev.Tty.{
  Tty, View, tty_clear, tty_render, tty_put_cell, tty_scroll, tty_switch_char, tty_wrap, tty_print,
  place,
}

-- The screen that shows a terminal.
abbrev pub shown : Tty → Vga
shown tty =
    vga_move_cursor tty.cur_x tty.cur_y
      (record { cells = tty.cells; cursor_low = 0; cursor_high = 0 })

cursor-shown :
    (v : View)
    → v.vga.cells ≡ v.tty.cells
    → vga_move_cursor v.tty.cur_x v.tty.cur_y v.vga ≡ shown v.tty
unfolding vga_move_cursor
cursor-shown v e = λ i. record (shown v.tty) { cells = e i }

pub render-shown : (v : View) → (tty_render v).vga ≡ shown v.tty
unfolding tty_render vga_draw_buffer
render-shown v = cursor-shown (record v { vga = vga_draw_buffer v.tty.cells v.vga }) refl

-- The cells of the screen are the terminal's.
abbrev Same : View → Type 0
Same v = v.vga.cells ≡ v.tty.cells

render-Same : (v : View) → Same (tty_render v)
unfolding tty_render vga_draw_buffer vga_move_cursor
render-Same v = refl

put-Same : (x y c : ℕ) (v : View) → Same v → Same (tty_put_cell true x y c v)
unfolding tty_put_cell vga_put_char
put-Same x y c v e = ap (λ cells. set cells (y * 80 + x) (cell c)) e

switch-Same : (c : ℕ) (v : View) → Same v → Same (tty_switch_char true c v)
unfolding tty_switch_char
switch-Same c v h =
    if-All Same (c == 10) (λ e. h)
      (λ e.
        if-All Same (c == 13) (λ e. h)
          (λ e.
            if-All Same (c == 8)
              (λ e.
                if-All Same (ltb 0 v.tty.cur_x)
                  (λ e.
                    put-Same (v.tty.cur_x - 1) v.tty.cur_y 32
                      (place (v.tty.cur_x - 1) v.tty.cur_y v) h)
                  (λ e. h))
              (λ e.
                if-All Same (c == 9) (λ e. h)
                  (λ e.
                    if-All Same (c == 12) (λ e. render-Same (record v { tty = tty_clear v.tty }))
                      (λ e. put-Same v.tty.cur_x v.tty.cur_y c v h)))))

wrap-Same : (v : View) → Same v → Same (tty_wrap v)
wrap-Same v h = if-All Same (leb 80 v.tty.cur_x) (λ e. h) (λ e. h)

scroll-Same : (v : View) → Same (tty_scroll true v)
unfolding tty_scroll
scroll-Same v = render-Same _

-- When the screen has the active terminal's cells, every character written to it leaves a screen
-- that shows the terminal, the cursor included.
pub tty_print-shown :
    (c : ℕ) (v : View)
    → v.vga.cells ≡ v.tty.cells
    → (tty_print true c v).vga ≡ shown (tty_print true c v).tty
unfolding tty_print
tty_print-shown c v h =
    cursor-shown (if leb 25 wrapped.tty.cur_y then tty_scroll true wrapped else wrapped) (
      if-All Same (leb 25 wrapped.tty.cur_y) (λ e. scroll-Same wrapped)
        (λ e. wrap-Same (tty_switch_char true c v) (switch-Same c v h)))
  where
    wrapped : View
    wrapped = tty_wrap (tty_switch_char true c v)

abbrev Kept : Vga → View → Type 0
Kept vga v = v.vga ≡ vga

switch-Kept : (c : ℕ) (v : View) → Kept v.vga (tty_switch_char false c v)
unfolding tty_switch_char tty_put_cell
switch-Kept c v =
    if-All P (c == 10) (λ e. refl)
      (λ e.
        if-All P (c == 13) (λ e. refl)
          (λ e.
            if-All P (c == 8) (λ e. if-All P (ltb 0 v.tty.cur_x) (λ e. refl) (λ e. refl))
              (λ e.
                if-All P (c == 9) (λ e. refl) (λ e. if-All P (c == 12) (λ e. refl) (λ e. refl)))))
  where
    P : View → Type 0
    P = Kept v.vga

-- A character written to a terminal that is not active leaves the screen as it is.
pub tty_print-background : (c : ℕ) (v : View) → (tty_print false c v).vga ≡ v.vga
unfolding tty_print tty_scroll
tty_print-background c v =
    if-All (Kept v.vga) (leb 25 (tty_wrap (tty_switch_char false c v)).tty.cur_y) (λ e. wrapped)
      (λ e. wrapped)
  where
    wrapped : Kept v.vga (tty_wrap (tty_switch_char false c v))
    wrapped =
        if-All (Kept v.vga) (leb 80 (tty_switch_char false c v).tty.cur_x) (λ e. switch-Kept c v)
          (λ e. switch-Kept c v)
