-- ===== src/Dev/Vga.antt =====
-- The text screen of stage2/dev/vga.c: the words of its memory, and the two cursor registers.
--
-- A character is the byte of a `char`, which is signed.
use mboot.Prelude.{
  ℕ, zero, suc, ◌+◌, ◌*◌, ◌/◌, ◌%◌, ◌^◌, List, ltb, if◌then◌else◌, bit_or, set, get_or,
}

abbrev pub vga_width : ℕ
vga_width = 80

abbrev pub vga_height : ℕ
vga_height = 25

abbrev pub cell_count : ℕ
cell_count = 2000

pub record Vga : Type 0 where
  pub cells : List ℕ
  pub cursor_low : ℕ
  pub cursor_high : ℕ

-- `(uint16_t)c | VGA_WHITE_ON_BLACK`
abbrev pub cell : ℕ → ℕ
cell c = bit_or (if ltb c 128 then c else c + 0xFF00) 0x0F00

-- `(uint16_t)' ' | VGA_WHITE_ON_BLACK`
abbrev pub blank : ℕ
blank = 0x0F20

unfoldable pub vga_move_cursor : ℕ → ℕ → Vga → Vga
vga_move_cursor x y vga =
    let pos = (y * vga_width + x) % 2 ^ 16 in
    record vga { cursor_low = pos % 2 ^ 8; cursor_high = pos / 2 ^ 8 % 2 ^ 8 }

unfoldable pub vga_put_char : ℕ → ℕ → ℕ → Vga → Vga
vga_put_char x y c vga = record vga { cells = set vga.cells (y * vga_width + x) (cell c) }

unfoldable pub vga_clear_char : ℕ → ℕ → Vga → Vga
vga_clear_char x y vga = record vga { cells = set vga.cells (y * vga_width + x) blank }

unfoldable pub vga_draw_buffer : List ℕ → Vga → Vga
vga_draw_buffer cells vga = record vga { cells = cells }

unfoldable pub vga_get_char : ℕ → ℕ → Vga → ℕ
vga_get_char x y vga = get_or vga.cells (y * vga_width + x) 0 % 2 ^ 8

-- The store of a blank in the first n of the cells from an index on.
unfoldable pub fill_blank : (start n : ℕ) → List ℕ → List ℕ
fill_blank start zero cells = cells
fill_blank start (suc n) cells = set (fill_blank start n cells) (start + n) blank
