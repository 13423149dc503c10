-- ===== src/Dev/Tty.antt =====
-- The virtual terminals of stage2/dev/tty.c.
--
-- A terminal is found by its number; `tty == ttys[active_tty]` compares the numbers, since tty_init
-- allocates the objects apart. A number below 0 is like any other that is out of range.
pub mod Screen
pub mod Shown
pub mod Active
pub mod Outputs
pub mod Input
pub mod Kept
pub mod Lines
pub mod Reads
pub mod Answers
mod Tests
use mboot.Prelude.{
  ℕ, zero, suc, ◌+◌, ◌-◌, ◌*◌, ◌/◌, ◌%◌, ◌^◌, Bool, true, false, ◌&&◌, ◌||◌, not, Option, none,
  some, List, [], ◌∷◌, ◌++◌, ◌==◌, ltb, leb, if◌then◌else◌, get_or, set, take, drop, length,
}
use mboot.Dev.Vga.{
  Vga, vga_width, vga_height, cell_count, cell, fill_blank, vga_move_cursor, vga_put_char,
  vga_draw_buffer,
}
use mboot.Dev.Early.{tty_early_write}

abbrev pub tty_count : ℕ
tty_count = 4

abbrev pub tty_input_size : ℕ
tty_input_size = 256

abbrev pub tty_line_size : ℕ
tty_line_size = 256

-- `tty_t`, with the address it was allocated at.
pub record Tty : Type 0 where
  pub addr : ℕ
  pub cells : List ℕ
  pub cur_x : ℕ
  pub cur_y : ℕ
  pub input : List ℕ
  pub input_head : ℕ
  pub input_tail : ℕ
  pub line : List ℕ
  pub line_fill : ℕ
  pub line_pos : ℕ

pub record Console : Type 0 where
  pub ttys : List (Option Tty)
  pub active_tty : ℕ
  pub tty_ready : Bool
  pub early_x : ℕ
  pub early_y : ℕ
  pub vga : Vga

unfoldable pub tty_clear : Tty → Tty
tty_clear tty = record tty {
  cells = fill_blank 0 cell_count tty.cells;
  cur_x = 0;
  cur_y = 0;
  input_head = 0;
  input_tail = 0;
  line_fill = 0;
  line_pos = 0;
}

-- A terminal, and the screen.
pub record View : Type 0 where
  pub tty : Tty
  pub vga : Vga

unfoldable pub tty_render : View → View
tty_render v = record v {
  vga = vga_move_cursor v.tty.cur_x v.tty.cur_y (vga_draw_buffer v.tty.cells v.vga);
}

unfoldable pub tty_put_cell : Bool → ℕ → ℕ → ℕ → View → View
tty_put_cell active x y c v = record v {
  tty = record v.tty { cells = set v.tty.cells (y * vga_width + x) (cell c) };
  vga = if active then vga_put_char x y c v.vga else v.vga;
}

-- `memcpy` of n words inside the cells, to a place below that they were at.
abbrev pub move_words : (to from n : ℕ) → List ℕ → List ℕ
move_words to from n cells = take to cells ++ take n (drop from cells) ++ drop (to + n) cells

-- The first n rows moved up by the loop of tty_scroll.
unfoldable pub move_rows : ℕ → List ℕ → List ℕ
move_rows zero cells = cells
move_rows (suc n) cells =
    move_words (n * vga_width) (suc n * vga_width) vga_width (move_rows n cells)

unfoldable pub tty_scroll : Bool → View → View
tty_scroll active v =
    let cells' =
      fill_blank ((vga_height - 1) * vga_width) vga_width
        (move_rows (vga_height - 1) v.tty.cells) in
    let v' = record v { tty = record v.tty { cells = cells'; cur_y = vga_height - 1 } } in
    if active then tty_render v' else v'

abbrev pub place : ℕ → ℕ → View → View
place x y v = record v { tty = record v.tty { cur_x = x; cur_y = y } }

-- The switch of tty_write.
unfoldable pub tty_switch_char : Bool → ℕ → View → View
tty_switch_char active c v =
    let x = v.tty.cur_x in
    let y = v.tty.cur_y in
    if c == 10
    then place 0 (y + 1) v
    else if c == 13
    then place 0 y v
    else if c == 8
    then if ltb 0 x then tty_put_cell active (x - 1) y 32 (place (x - 1) y v) else v
    else if c == 9
    then place ((x + 8) / 8 * 8) y v
    else if c == 12
    then (let v' = record v { tty = tty_clear v.tty } in if active then tty_render v' else v')
    else place (x + 1) y (tty_put_cell active x y c v)

abbrev pub tty_wrap : View → View
tty_wrap v = if leb vga_width v.tty.cur_x then place 0 (v.tty.cur_y + 1) v else v

-- What tty_write does to a terminal that exists.
unfoldable pub tty_print : Bool → ℕ → View → View
tty_print active c v =
    let wrapped = tty_wrap (tty_switch_char active c v) in
    let kept = if leb vga_height wrapped.tty.cur_y then tty_scroll active wrapped else wrapped in
    if active
    then record kept { vga = vga_move_cursor kept.tty.cur_x kept.tty.cur_y kept.vga }
    else kept

abbrev pub find_tty : ℕ → Console → Option Tty
find_tty id con = if ltb id tty_count then get_or con.ttys id none else none

abbrev pub put_view : ℕ → View → Console → Console
put_view id v con = record con { ttys = set con.ttys id (some v.tty); vga = v.vga }

-- A character for a terminal that was found, or for the screen when none was.
unfoldable pub write_to : ℕ → ℕ → Console → Option Tty → Console
write_to id c con none =
    let e =
      tty_early_write c (record { early_x = con.early_x; early_y = con.early_y; vga = con.vga }) in
    record con { early_x = e.early_x; early_y = e.early_y; vga = e.vga }
write_to id c con (some tty) =
    put_view id (tty_print (id == con.active_tty) c (record { tty = tty; vga = con.vga })) con

unfoldable pub tty_write : ℕ → ℕ → Console → Console
unfolding write_to
tty_write id c con = write_to id c con (if con.tty_ready then find_tty id con else none)

unfoldable pub write_chars : ℕ → List ℕ → Console → Console
unfolding tty_write
write_chars id [] con = con
write_chars id (c ∷ buf) con = write_chars id buf (tty_write id c con)

-- `none` is the error -1, the number what is returned.
unfoldable pub tty_write_buf : ℕ → List ℕ → Console → Option (ℕ × Console)
unfolding write_chars
tty_write_buf id buf con =
    if ltb id tty_count then some (length buf, write_chars id buf con) else none

-- tty_render of a terminal that may be missing.
unfoldable pub render_found : Console → Option Tty → Console
render_found con none = con
render_found con (some tty) = record con {
  vga = (tty_render (record { tty = tty; vga = con.vga })).vga;
}

unfoldable pub render_active : Console → Console
unfolding render_found
render_active con = render_found con (get_or con.ttys con.active_tty none)

unfoldable pub tty_switch : ℕ → Console → Console
tty_switch id con =
    if not (ltb id tty_count) || (id == con.active_tty)
    then con
    else render_active (record con { active_tty = id })

-- The loop of tty_init over what kmalloc gives: a terminal with its old bytes, or nothing. The test
-- is whether all were allocated.
unfoldable pub init_ttys : ℕ → List (Option Tty) → Console → Console × Bool
unfolding tty_clear
init_ttys i [] con = (con, true)
init_ttys i (none ∷ allocated) con = (record con { ttys = set con.ttys i none }, false)
init_ttys i (some tty ∷ allocated) con =
    init_ttys (i + 1) allocated (record con { ttys = set con.ttys i (some (tty_clear tty)) })

unfoldable pub tty_init : List (Option Tty) → Console → Console
unfolding init_ttys render_active
tty_init allocated con =
    let (con', all_there) = init_ttys 0 allocated con in
    if all_there
    then render_active (record con' { active_tty = 0; tty_ready = true; early_x = 0; early_y = 0 })
    else con'

-- The terminals and the screen before tty_init.
abbrev pub boot_console : ℕ → ℕ → Vga → Console
boot_console early_x early_y vga = record {
  ttys = none ∷ none ∷ none ∷ none ∷ [];
  active_tty = 0;
  tty_ready = false;
  early_x = early_x;
  early_y = early_y;
  vga = vga;
}
