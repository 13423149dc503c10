-- ===== src/Dev/Keyboard/Tests.antt =====
-- A scancode behind the tables.
use mboot.Prelude.{◌≤◌, ◌<◌, ◌≡◌, ◌↔◌, false, none, replicate}
use mboot.Dev.Keyboard.{Keyboard, keyboard_decode}
use mboot.Dev.Keyboard.Table.{keyboard_decode-bounds}

abbrev idle : Keyboard
idle = record { shifted = false; alt_down = false; buffer = replicate 256 0; head = 0; tail = 0 }

keyboard_decode-bounds_example :
    (keyboard_decode 0x5B idle ≡ none) ↔ ((0x5A ≤ 0x5B) × (0x5B < 0x80))
keyboard_decode-bounds_example = keyboard_decode-bounds 0x5B idle
