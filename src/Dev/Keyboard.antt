-- ===== src/Dev/Keyboard.antt =====
-- The keyboard of stage2/dev/keyboard.c: scancodes, their characters, and the buffer of characters.
pub mod Table
mod Tests
use mboot.Prelude.{
  ℕ, ◌+◌, ◌%◌, Bool, true, false, ◌&&◌, ◌||◌, Option, none, some, List, [], ◌∷◌, ◌==◌, leb,
  if◌then◌else◌, get_elem?, get_or, set,
}
use mboot.Dev.Tty.{Console}
use mboot.Dev.Tty.Input.{tty_handle_key}
use mboot.Scheduler.{Scheduler}

abbrev pub scancode_map : List ℕ
scancode_map =
    0 ∷ 27 ∷ 49 ∷ 50 ∷ 51 ∷ 52 ∷ 53 ∷ 54 ∷ 55 ∷ 56 ∷ 57 ∷ 48 ∷ 39 ∷ 94 ∷ 8 ∷ 9 ∷ 113 ∷ 119 ∷ 101
    ∷ 114 ∷ 116 ∷ 122 ∷ 117 ∷ 105 ∷ 111 ∷ 112 ∷ 117 ∷ 101 ∷ 10 ∷ 0 ∷ 97 ∷ 115 ∷ 100 ∷ 102 ∷ 103
    ∷ 104 ∷ 106 ∷ 107 ∷ 108 ∷ 111 ∷ 97 ∷ 36 ∷ 0 ∷ 60 ∷ 121 ∷ 120 ∷ 99 ∷ 118 ∷ 98 ∷ 110 ∷ 109 ∷ 44
    ∷ 46 ∷ 45 ∷ 0 ∷ 42 ∷ 0 ∷ 32 ∷ 0 ∷ 0 ∷ 0 ∷ 0 ∷ 0 ∷ 0 ∷ 0 ∷ 0 ∷ 0 ∷ 0 ∷ 0 ∷ 0 ∷ 0 ∷ 0 ∷ 0 ∷ 0 ∷ 45
    ∷ 0 ∷ 0 ∷ 0 ∷ 43 ∷ 0 ∷ 0 ∷ 0 ∷ 0 ∷ 0 ∷ 0 ∷ 0 ∷ 0 ∷ 0 ∷ 0 ∷ 0 ∷ []

abbrev pub shift_scancode_map : List ℕ
shift_scancode_map =
    0 ∷ 27 ∷ 43 ∷ 34 ∷ 42 ∷ 36 ∷ 37 ∷ 38 ∷ 47 ∷ 40 ∷ 41 ∷ 61 ∷ 63 ∷ 96 ∷ 8 ∷ 9 ∷ 81 ∷ 87 ∷ 69 ∷ 82
    ∷ 84 ∷ 90 ∷ 85 ∷ 73 ∷ 79 ∷ 80 ∷ 69 ∷ 33 ∷ 10 ∷ 0 ∷ 65 ∷ 83 ∷ 68 ∷ 70 ∷ 71 ∷ 72 ∷ 74 ∷ 75 ∷ 76
    ∷ 79 ∷ 65 ∷ 94 ∷ 0 ∷ 62 ∷ 89 ∷ 88 ∷ 67 ∷ 86 ∷ 66 ∷ 78 ∷ 77 ∷ 59 ∷ 58 ∷ 95 ∷ 0 ∷ 42 ∷ 0 ∷ 32 ∷ 0
    ∷ 0 ∷ 0 ∷ 0 ∷ 0 ∷ 0 ∷ 0 ∷ 0 ∷ 0 ∷ 0 ∷ 0 ∷ 0 ∷ 0 ∷ 0 ∷ 0 ∷ 0 ∷ 45 ∷ 0 ∷ 0 ∷ 0 ∷ 43 ∷ 0 ∷ 0 ∷ 0
    ∷ 0 ∷ 0 ∷ 0 ∷ 0 ∷ 0 ∷ 0 ∷ 0 ∷ 0 ∷ []

pub record Keyboard : Type 0 where
  pub shifted : Bool
  pub alt_down : Bool
  pub buffer : List ℕ
  pub head : ℕ
  pub tail : ℕ

-- The switch of keyboard_handler: what a modifier's scancode leaves.
unfoldable pub modifier : ℕ → Keyboard → Option Keyboard
modifier scancode kb =
    if (scancode == 0x2A) || (scancode == 0x36)
    then some (record kb { shifted = true })
    else if (scancode == 0xAA) || (scancode == 0xB6)
    then some (record kb { shifted = false })
    else if scancode == 0x38
    then some (record kb { alt_down = true })
    else if scancode == 0xB8
    then some (record kb { alt_down = false })
    else none

unfoldable pub keyboard_push : ℕ → Keyboard → Keyboard
keyboard_push c kb =
    let next_head = (kb.head + 1) % 256 in
    if next_head == kb.tail
    then kb
    else record kb { buffer = set kb.buffer kb.head c; head = next_head }

-- `none` waits for a key.
unfoldable pub keyboard_read_key : Keyboard → Option (ℕ × Keyboard)
keyboard_read_key kb =
    if kb.head == kb.tail
    then none
    else some (get_or kb.buffer kb.tail 0, record kb { tail = (kb.tail + 1) % 256 })

-- What keyboard_handler hands to tty_handle_key, the scancode and the character.
pub data Press : Type 0 where
  nothing : Press
  pressed : ℕ → ℕ → Press

abbrev pub looked_up : ℕ → Keyboard → Option ℕ → Option (Keyboard × Press)
looked_up scancode kb none = none
looked_up scancode kb (some c) =
    if c == 0 then some (kb, nothing) else some (keyboard_push c kb, pressed scancode c)

-- What keyboard_handler does with a scancode behind its switch.
unfoldable pub decode_key : ℕ → Keyboard → Option (Keyboard × Press)
decode_key scancode kb =
    if leb 0x80 scancode
    then some (kb, nothing)
    else if kb.alt_down && (leb 0x3B scancode && leb scancode 0x3E)
    then some (kb, pressed scancode 0)
    else looked_up scancode kb
        (get_elem? (if kb.shifted then shift_scancode_map else scancode_map) scancode)

abbrev pub decode_other : ℕ → Keyboard → Option Keyboard → Option (Keyboard × Press)
decode_other scancode kb none = decode_key scancode kb
decode_other scancode kb (some kb') = some (kb', nothing)

-- A byte of the keyboard; `none` is a read behind the end of a table, whose effect C leaves open.
unfoldable pub keyboard_decode : ℕ → Keyboard → Option (Keyboard × Press)
keyboard_decode scancode kb = decode_other scancode kb (modifier scancode kb)

-- The interrupt, with the terminals.
unfoldable pub keyboard_handler :
    ℕ → Keyboard → Console → Scheduler → Option (Keyboard × Console × Scheduler)
keyboard_handler scancode kb con sched = elim (keyboard_decode scancode kb) [
  | none ↦ none
  | some (kb', nothing) ↦ some (kb', con, sched)
  | some (kb', pressed code c) ↦
      let (con', sched') = tty_handle_key code c con sched in some (kb', con', sched')
]
