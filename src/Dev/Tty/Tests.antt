-- ===== src/Dev/Tty/Tests.antt =====
-- Terminals with concrete keys and output.
use mboot.Prelude.{
  ℕ, ◌≤◌, ◌≡◌, refl, true, some, [], ◌∷◌, ◌++◌, if◌then◌else◌, ltb, length, replicate,
  length-replicate, arith,
}
use mboot.Dev.Vga.{Vga}
use mboot.Dev.Tty.{
  Tty, Console, tty_init, boot_console, tty_clear, tty_write, tty_switch, tty_print,
}
use mboot.Dev.Tty.Input.{tty_push_input, put_tty, tty_read}
use mboot.Dev.Tty.Screen.{IsOnScreen, tty_print-IsOnScreen}
use mboot.Dev.Tty.Active.{IsConsole}
use mboot.Dev.Tty.Outputs.{booted, wrote, switched, Output-IsConsole}
use mboot.Dev.Tty.Kept.{keys, Has, put_tty-Has}
use mboot.Dev.Tty.Lines.{edited, typed, IsInput, queue_of}
use mboot.Dev.Tty.Answers.{Answer, tty_push_input-queue, tty_read-Answer}

abbrev fresh : Tty
fresh = record {
  addr = 0x9000;
  cells = replicate 2000 0;
  cur_x = 0;
  cur_y = 0;
  input = replicate 256 0;
  input_head = 0;
  input_tail = 0;
  line = replicate 256 0;
  line_fill = 0;
  line_pos = 0;
}

abbrev screen : Vga
screen = record { cells = replicate 2000 0; cursor_low = 0; cursor_high = 0 }

abbrev started : Console
started =
    tty_init (some fresh ∷ some fresh ∷ some fresh ∷ some fresh ∷ []) (boot_console 0 0 screen)

fresh_cells :
    (length fresh.cells ≡ 2000)
    × (length fresh.cells ≡ 2000)
    × (length fresh.cells ≡ 2000)
    × (length fresh.cells ≡ 2000)
fresh_cells = let e : length fresh.cells ≡ 2000 = length-replicate {A = ℕ} 2000 0 in (e, e, e, e)

-- A letter on the active terminal, one on another, and a switch to that one.
Output-IsConsole_example : IsConsole (tty_switch 1 (tty_write 1 66 (tty_write 0 65 started)))
Output-IsConsole_example =
    Output-IsConsole fresh fresh fresh fresh 0 0 screen
      (tty_switch 1 (tty_write 1 66 (tty_write 0 65 started))) fresh_cells
      (switched 1 (wrote 1 66 (omega arith) (wrote 0 65 (omega arith) booted)))

fresh-IsOnScreen : IsOnScreen fresh
fresh-IsOnScreen = record { cells = fresh_cells.0; column = omega arith; row = omega arith }

tty_print-IsOnScreen_example :
    IsOnScreen (tty_print true 10 (record { tty = fresh; vga = screen })).tty
tty_print-IsOnScreen_example =
    tty_print-IsOnScreen true 10 (record { tty = fresh; vga = screen }) fresh-IsOnScreen

-- The keys h, i, erase, o and enter.
abbrev typed_tty : Tty
typed_tty = record (tty_clear fresh) {
  input = 104 ∷ 105 ∷ 8 ∷ 111 ∷ 13 ∷ replicate 251 0;
  input_head = 5;
}

typed-IsInput : IsInput (keys typed_tty)
unfolding tty_clear
typed-IsInput = record {
  input = refl;
  head = omega arith;
  tail = omega arith;
  line = refl;
  fill = omega arith;
}

started-Has : Has 0 (keys (tty_clear fresh)) started
unfolding tty_init
started-Has = record {
  console = Output-IsConsole fresh fresh fresh fresh 0 0 screen started fresh_cells booted;
  tty = tty_clear fresh;
  found = refl;
  fields = refl;
}

tty_push_input-queue_example : queue_of (keys (tty_push_input 33 typed_tty)) ≡ (
    if ltb (length (queue_of (keys typed_tty))) 255
    then queue_of (keys typed_tty) ++ 33 ∷ []
    else queue_of (keys typed_tty))
tty_push_input-queue_example = tty_push_input-queue 33 typed_tty typed-IsInput

no_line : (keys typed_tty).fill ≤ (keys typed_tty).pos
unfolding tty_clear
no_line = omega arith

tty_read-Answer_example :
    Answer 0 2 (edited [] (queue_of (keys typed_tty))) (tty_read 0 2 (put_tty 0 typed_tty started))
unfolding started-Has tty_clear
tty_read-Answer_example =
    tty_read-Answer 0 2 (keys typed_tty) (put_tty 0 typed_tty started) (omega arith)
      (put_tty-Has 0 typed_tty (keys (tty_clear fresh)) started (omega arith) started-Has refl refl
        refl)
      typed-IsInput no_line

-- The line is "ho" and the newline.
edited_example :
    edited [] (104 ∷ 105 ∷ 8 ∷ 111 ∷ 13 ∷ 120 ∷ []) ≡ (true, 104 ∷ 111 ∷ 10 ∷ [], 120 ∷ [])
unfolding edited typed
edited_example = refl
