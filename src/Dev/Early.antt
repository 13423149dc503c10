-- ===== src/Dev/Early.antt =====
-- The output of stage2/dev/tty.c before the terminals exist, which goes to the screen.
use mboot.Prelude.{ℕ, zero, suc, ◌+◌, ◌-◌, ◌*◌, ◌/◌, ◌==◌, ltb, leb, if◌then◌else◌}
use mboot.Dev.Vga.{
  Vga, vga_width, vga_height, fill_blank, vga_move_cursor, vga_put_char, vga_clear_char,
  vga_get_char,
}

pub record Early : Type 0 where
  pub early_x : ℕ
  pub early_y : ℕ
  pub vga : Vga

-- The first n characters of a row, moved to the row above.
unfoldable pub early_row : (y n : ℕ) → Vga → Vga
early_row y zero vga = vga
early_row y (suc n) vga =
    let moved = early_row y n vga in vga_put_char n (y - 1) (vga_get_char n y moved) moved

unfoldable pub early_rows : ℕ → Vga → Vga
early_rows zero vga = vga
early_rows (suc n) vga = early_row (suc n) vga_width (early_rows n vga)

unfoldable pub early_scroll : Vga → Vga
early_scroll vga =
    let moved = early_rows (vga_height - 1) vga in
    record moved { cells = fill_blank ((vga_height - 1) * vga_width) vga_width moved.cells }

-- The switch of tty_early_write.
unfoldable pub early_switch : ℕ → Early → Early
early_switch c e =
    if c == 10
    then record e { early_x = 0; early_y = e.early_y + 1 }
    else if c == 13
    then record e { early_x = 0 }
    else if c == 8
    then if ltb 0 e.early_x
      then record e {
        early_x = e.early_x - 1;
        vga = vga_clear_char (e.early_x - 1) e.early_y e.vga;
      }
      else e
    else if c == 9
    then record e { early_x = (e.early_x + 8) / 8 * 8 }
    else record e { vga = vga_put_char e.early_x e.early_y c e.vga; early_x = e.early_x + 1 }

abbrev pub early_wrap : Early → Early
early_wrap e =
    if leb vga_width e.early_x then record e { early_x = 0; early_y = e.early_y + 1 } else e

unfoldable pub tty_early_write : ℕ → Early → Early
tty_early_write c e =
    let wrapped = early_wrap (early_switch c e) in
    let kept =
      if leb vga_height wrapped.early_y
      then record wrapped { vga = early_scroll wrapped.vga; early_y = vga_height - 1 }
      else wrapped in
    record kept { vga = vga_move_cursor kept.early_x kept.early_y kept.vga }
