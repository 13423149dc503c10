-- ===== src/Dev/Tty/Outputs.antt =====
-- The set of terminals and the screen, from the start and over every sequence of writes and switches.
use mboot.Prelude.{
  ℕ, zero, suc, ◌<◌, ◌≡◌, refl, ◌∙◌, true, none, some, [], ◌∷◌, arith, get_or, length,
}
use mboot.Dev.Vga.{Vga}
use mboot.Dev.Tty.{Tty, Console, tty_write, tty_switch, tty_init, boot_console, tty_clear}
use mboot.Dev.Tty.Screen.{IsOnScreen, length-fill_blank}
use mboot.Dev.Tty.Active.{
  IsConsole, tty_write-IsConsole, tty_switch-IsConsole, render_active-IsConsole,
}

clear-IsOnScreen : (tty : Tty) → length tty.cells ≡ 2000 → IsOnScreen (tty_clear tty)
unfolding tty_clear
clear-IsOnScreen tty h = record {
  cells = length-fill_blank 0 2000 tty.cells ∙ h;
  column = omega arith;
  row = omega arith;
}

tty_init-IsConsole :
    (t0 t1 t2 t3 : Tty) (early_x early_y : ℕ) (vga : Vga)
    → length t0.cells ≡ 2000
    → length t1.cells ≡ 2000
    → length t2.cells ≡ 2000
    → length t3.cells ≡ 2000
    → IsConsole
        (tty_init (some t0 ∷ some t1 ∷ some t2 ∷ some t3 ∷ []) (boot_console early_x early_y vga))
unfolding tty_init
tty_init-IsConsole t0 t1 t2 t3 early_x early_y vga h0 h1 h2 h3 =
    render_active-IsConsole
      (record (boot_console 0 0 vga) {
        ttys =
            some (tty_clear t0)
            ∷ some (tty_clear t1)
            ∷ some (tty_clear t2)
            ∷ some (tty_clear t3)
            ∷ [];
        tty_ready = true;
      })
      refl (omega arith) refl there
  where
    there :
        (id : ℕ)
        → id < 4
        → (tty : Tty) × (get_or
              (some (tty_clear t0)
                ∷ some (tty_clear t1)
                ∷ some (tty_clear t2)
                ∷ some (tty_clear t3)
                ∷ [])
              id
              none
            ≡ some tty)
          × IsOnScreen tty
    there zero k = (tty_clear t0, refl, clear-IsOnScreen t0 h0)
    there (suc zero) k = (tty_clear t1, refl, clear-IsOnScreen t1 h1)
    there (suc (suc zero)) k = (tty_clear t2, refl, clear-IsOnScreen t2 h2)
    there (suc (suc (suc zero))) k = (tty_clear t3, refl, clear-IsOnScreen t3 h3)
    there (suc (suc (suc (suc n)))) k = absurd (omega arith)

-- What keys and programs do to the terminals' output.
pub data Output (con : Console) : Console → Type 0 where
  booted : Output con con
  wrote : {con' : Console} (id c : ℕ) → id < 4 → Output con con' → Output con (tty_write id c con')
  switched : {con' : Console} (id : ℕ) → Output con con' → Output con (tty_switch id con')

-- From tty_init on, when its four allocations succeed, in whatever order characters are written to
-- the terminals and the terminals are switched: every cursor is on the screen of 80 by 25 places,
-- every terminal has its 2000 cells, and the screen, its cursor included, shows the active
-- terminal.
pub Output-IsConsole :
    (t0 t1 t2 t3 : Tty) (early_x early_y : ℕ) (vga : Vga) (con : Console)
    → (length t0.cells ≡ 2000)
      × (length t1.cells ≡ 2000)
      × (length t2.cells ≡ 2000)
      × (length t3.cells ≡ 2000)
    → Output
        (tty_init (some t0 ∷ some t1 ∷ some t2 ∷ some t3 ∷ []) (boot_console early_x early_y vga))
        con
    → IsConsole con
Output-IsConsole t0 t1 t2 t3 early_x early_y vga con (h0, h1, h2, h3) = always
  where
    start : Console
    start = tty_init (some t0 ∷ some t1 ∷ some t2 ∷ some t3 ∷ []) (boot_console early_x early_y vga)

    always : {con : Console} → Output start con → IsConsole con
    always booted = tty_init-IsConsole t0 t1 t2 t3 early_x early_y vga h0 h1 h2 h3
    always (wrote id c k rest) = tty_write-IsConsole _ (always rest) id k c
    always (switched id rest) = tty_switch-IsConsole id _ (always rest)
