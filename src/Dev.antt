-- ===== src/Dev.antt =====
-- The devices of stage2/dev: the text screen, the terminals and the keyboard.
pub mod Ring
pub mod Vga
pub mod Early
pub mod Tty
pub mod Keyboard
