-- ===== src/Dev/Tty/Kept.antt =====
-- What output leaves alone: the input queue and the line of a terminal.
use mboot.Prelude.{
  ℕ, ◌<◌, ◌≡◌, ◌≢◌, refl, ap, ◌∙◌, sym, Bool, none, some, List, [], ◌∷◌, ◌==◌, ==_iff, leb, ltb,
  if◌then◌else◌, if-All, arith, get_or, length, get_or-set, All,
}
use mathlib.Core.Option.{some-injective}
use mathlib.Core.Path.{subst}
use mboot.Dev.Tty.{
  Tty, View, Console, tty_write, write_chars, tty_print, tty_scroll, tty_render, tty_switch_char,
  tty_put_cell, tty_wrap,
}
use mboot.Dev.Tty.Active.{IsConsole, tty_write-IsConsole, tty_write-found, put-IsConsole}
use mboot.Dev.Tty.Screen.{IsOnScreen}
use mboot.Dev.Vga.{vga_move_cursor}
use mboot.Dev.Tty.Shown.{shown}
use mboot.Dev.Tty.Input.{put_tty}

-- The fields of a terminal that its input uses.
pub record Keys : Type 0 where
  pub input : List ℕ
  pub head : ℕ
  pub tail : ℕ
  pub line : List ℕ
  pub fill : ℕ
  pub pos : ℕ

abbrev pub keys : Tty → Keys
keys tty = record {
  input = tty.input;
  head = tty.input_head;
  tail = tty.input_tail;
  line = tty.line;
  fill = tty.line_fill;
  pos = tty.line_pos;
}

module _ (active : Bool) (c : ℕ) (v : View) (n : c ≢ 12) where
  P : View → Type 0
  P w = keys w.tty ≡ keys v.tty

  switch-keys : P (tty_switch_char active c v)
  unfolding P tty_switch_char tty_put_cell
  switch-keys =
      if-All P (c == 10) (λ e. refl)
        (λ e.
          if-All P (c == 13) (λ e. refl)
            (λ e.
              if-All P (c == 8) (λ e. if-All P (ltb 0 v.tty.cur_x) (λ e. refl) (λ e. refl))
                (λ e.
                  if-All P (c == 9) (λ e. refl)
                    (λ e. if-All P (c == 12) (λ e. absurd (n ((==_iff c 12).0 e))) (λ e. refl)))))

  wrap-keys : P (tty_wrap (tty_switch_char active c v))
  unfolding P
  wrap-keys =
      if-All P (leb 80 (tty_switch_char active c v).tty.cur_x) (λ e. switch-keys) (λ e. switch-keys)

  scroll-keys : P (tty_scroll active (tty_wrap (tty_switch_char active c v)))
  unfolding P tty_scroll tty_render
  scroll-keys = if-All P active (λ e. wrap-keys) (λ e. wrap-keys)

  print-keys : P (tty_print active c v)
  unfolding P tty_print
  print-keys = if-All P active (λ e. kept) (λ e. kept)
    where
      wrapped : View
      wrapped = tty_wrap (tty_switch_char active c v)

      kept : P (if leb 25 wrapped.tty.cur_y then tty_scroll active wrapped else wrapped)
      kept = if-All P (leb 25 wrapped.tty.cur_y) (λ e. scroll-keys) (λ e. wrap-keys)

-- A console in order in which a terminal has these fields.
pub record Has (id : ℕ) (k : Keys) (con : Console) : Type 0 where
  pub console : IsConsole con
  pub tty : Tty
  pub found : get_or con.ttys id none ≡ some tty
  pub fields : keys tty ≡ k

write-Has :
    (id c : ℕ) (k : Keys) (con : Console)
    → id < 4
    → c ≢ 12
    → Has id k con
    → Has id k (tty_write id c con)
unfolding P
write-Has id c k con valid n h =
    let (tty, e, ok) = h.console.there id valid in
    let v : View = record { tty = tty; vga = con.vga } in
    record {
      console = tty_write-IsConsole con h.console id valid c;
      tty = (tty_print (id == con.active_tty) c v).tty;
      found =
          ap (λ (w : Console). get_or w.ttys id none)
            (tty_write-found con h.console id valid c tty e ok)
          ∙ get_or-set con.ttys id (some (tty_print (id == con.active_tty) c v).tty) none
              (omega (arith, h.console.count, valid));
      fields =
          print-keys (id == con.active_tty) c v n
          ∙ ap keys (some-injective tty h.tty (sym e ∙ h.found))
          ∙ h.fields;
    }

pub write_chars-Has :
    (id : ℕ) (cs : List ℕ) (k : Keys) (con : Console)
    → id < 4
    → All (λ c. c ≢ 12) cs
    → Has id k con
    → Has id k (write_chars id cs con)
unfolding write_chars
write_chars-Has id [] k con valid n h = h
write_chars-Has id (c ∷ cs) k con valid n h =
    write_chars-Has id cs k (tty_write id c con) valid n.1 (write-Has id c k con valid n.0 h)

same-shown :
    (s t : Tty) → s.cells ≡ t.cells → s.cur_x ≡ t.cur_x → s.cur_y ≡ t.cur_y → shown s ≡ shown t
same-shown s t a b c =
    λ i. vga_move_cursor (b i) (c i) (record { cells = a i; cursor_low = 0; cursor_high = 0 })

-- A terminal stored with other input, but the same screen.
pub put_tty-Has :
    (id : ℕ) (tty : Tty) (k : Keys) (con : Console)
    → id < 4
    → (h : Has id k con) → tty.cells ≡ h.tty.cells
    → tty.cur_x ≡ h.tty.cur_x
    → tty.cur_y ≡ h.tty.cur_y
    → Has id (keys tty) (put_tty id tty con)
put_tty-Has id tty k con valid h a b c =
    let (t, e, ok) = h.console.there id valid in
    let same : t ≡ h.tty = some-injective t h.tty (sym e ∙ h.found) in
    let old = subst IsOnScreen same ok in
    record {
      console =
          put-IsConsole con h.console id valid tty con.vga
            (record {
              cells = ap length a ∙ old.cells;
              column = omega (arith, b, old.column);
              row = omega (arith, c, old.row);
            })
            (λ s.
              h.console.shows h.tty (ap (λ n. get_or con.ttys n none) (sym s) ∙ h.found)
              ∙ sym (same-shown tty h.tty a b c))
            (λ ne. refl);
      tty = tty;
      found = get_or-set con.ttys id (some tty) none (omega (arith, h.console.count, valid));
      fields = refl;
    }
