-- ===== src/Dev/Tty/Active.antt =====
-- The set of terminals and the screen, over writes, switches and the start.
use mboot.Prelude.{
  ℕ, ◌<◌, ◌≡◌, ◌≢◌, ap, ◌∙◌, sym, true, none, some, List, [], ◌∷◌, ◌==◌, ==_iff, ltb, if◌then◌else◌,
  if-All, arith, set, get_or, length, length-set, get_or-set, get_or-set_ne, lt→ltb, not, ◌||◌, inl,
  inr, Bool-cases,
}
use mathlib.Core.Option.{some-injective}
use mathlib.Core.Path.{subst}
use mboot.Dev.Vga.{Vga, vga_move_cursor}
use mboot.Dev.Tty.{
  Tty, View, Console, find_tty, put_view, tty_write, write_to, write_chars, tty_switch,
  render_active, render_found, tty_print,
}
use mboot.Dev.Tty.Screen.{IsOnScreen, tty_print-IsOnScreen}
use mboot.Dev.Tty.Shown.{shown, render-shown, tty_print-shown, tty_print-background}

-- The terminals are there, their cursors on the screen, and the screen shows the active one.
pub record IsConsole (con : Console) : Type 0 where
  pub ready : con.tty_ready ≡ true
  pub active : con.active_tty < 4
  pub count : length con.ttys ≡ 4
  pub there :
      (id : ℕ) → id < 4 → (tty : Tty) × (get_or con.ttys id none ≡ some tty) × IsOnScreen tty
  pub shows : (tty : Tty) → get_or con.ttys con.active_tty none ≡ some tty → con.vga ≡ shown tty

module _ (con : Console) (h : IsConsole con) (id : ℕ) (valid : id < 4) where
  -- A terminal stored with a cursor on the screen, and a screen that changes only for the active
  -- one, which it shows.
  module _ (tty : Tty) (vga : Vga) (ok : IsOnScreen tty) where
    there-put :
        (other : ℕ)
        → other < 4
        → (t : Tty) × (get_or (set con.ttys id (some tty)) other none ≡ some t) × IsOnScreen t
    there-put other k = elim (Bool-cases (other == id)) [
      | inl b ↦ (
        tty,
        subst (λ n. get_or (set con.ttys id (some tty)) n none ≡ some tty)
            (sym ((==_iff other id).0 b))
            (get_or-set con.ttys id (some tty) none (omega (arith, h.count, valid))),
        ok,
      )
      | inr b ↦
          let (t, f, o) = h.there other k in
          (
            t,
            get_or-set_ne con.ttys id other (some tty) none
                  (λ s. ground (arith, b, (==_iff other id).1 (sym s)))
                ∙ f,
            o,
          )
    ]

    pub put-IsConsole :
        (id ≡ con.active_tty → vga ≡ shown tty)
        → (id ≢ con.active_tty → vga ≡ con.vga)
        → IsConsole (record con { ttys = set con.ttys id (some tty); vga = vga })
    put-IsConsole front back = record {
      ready = h.ready;
      active = h.active;
      count = length-set con.ttys id (some tty) ∙ h.count;
      there = there-put;
      shows = shows-put;
    }
      where
        shows-put :
            (t : Tty)
            → get_or (set con.ttys id (some tty)) con.active_tty none ≡ some t
            → vga ≡ shown t
        shows-put t k = elim (Bool-cases (id == con.active_tty)) [
          | inl b ↦
              let s = (==_iff id con.active_tty).0 b in
              front s
              ∙ ap shown (
                  some-injective tty t (
                    sym (get_or-set con.ttys id (some tty) none (omega (arith, h.count, valid)))
                    ∙ ap (λ n. get_or (set con.ttys id (some tty)) n none) s
                    ∙ k))
          | inr b ↦
              let ne : id ≢ con.active_tty =
                λ s. ground (arith, b, (==_iff id con.active_tty).1 s) in
              back ne
              ∙ h.shows t (sym (get_or-set_ne con.ttys id con.active_tty (some tty) none ne) ∙ k)
        ]

  -- The terminal written to, and its part of the write.
  module _ (c : ℕ) (tty : Tty) (e : get_or con.ttys id none ≡ some tty) (ok : IsOnScreen tty) where
    before : View
    before = record { tty = tty; vga = con.vga }

    pub tty_write-found :
        tty_write id c con
        ≡ put_view id (tty_print (id == con.active_tty) c (record { tty = tty; vga = con.vga })) con
    unfolding tty_write
    tty_write-found = ap (write_to id c con) (
        ap (λ b. if b then find_tty id con else none) h.ready
        ∙ ap (λ b. if b then get_or con.ttys id none else none) (lt→ltb id 4 valid)
        ∙ e)

    front-shown :
        id ≡ con.active_tty
        → (tty_print (id == con.active_tty) c before).vga
          ≡ shown (tty_print (id == con.active_tty) c before).tty
    unfolding before vga_move_cursor
    front-shown s =
        subst (λ a. (tty_print a c before).vga ≡ shown (tty_print a c before).tty)
          (sym ((==_iff id con.active_tty).1 s))
          (tty_print-shown c before (
            ap (λ (v : Vga). v.cells) (h.shows tty (ap (λ n. get_or con.ttys n none) (sym s) ∙ e))))

    back-kept : id ≢ con.active_tty → (tty_print (id == con.active_tty) c before).vga ≡ con.vga
    unfolding before
    back-kept ne = elim (Bool-cases (id == con.active_tty)) [
      | inl b ↦ absurd (ne ((==_iff id con.active_tty).0 b))
      | inr b ↦ ap (λ a. (tty_print a c before).vga) b ∙ tty_print-background c before
    ]

  -- Whatever character is written to whichever terminal, the console stays in order.
  pub tty_write-IsConsole : (c : ℕ) → IsConsole (tty_write id c con)
  unfolding before
  tty_write-IsConsole c =
      let (tty, e, ok) = h.there id valid in
      let w = tty_print (id == con.active_tty) c (before c tty e ok) in
      subst IsConsole (sym (tty_write-found c tty e ok)) (
        put-IsConsole w.tty w.vga
          (tty_print-IsOnScreen (id == con.active_tty) c (before c tty e ok) ok)
          (front-shown c tty e ok) (back-kept c tty e ok))

write_chars-IsConsole :
    (id : ℕ) (buf : List ℕ) (con : Console)
    → id < 4
    → IsConsole con
    → IsConsole (write_chars id buf con)
unfolding write_chars
write_chars-IsConsole id [] con k h = h
write_chars-IsConsole id (c ∷ buf) con k h =
    write_chars-IsConsole id buf (tty_write id c con) k (tty_write-IsConsole con h id k c)

-- A redraw of the active terminal shows it.
pub render_active-IsConsole :
    (con : Console)
    → con.tty_ready ≡ true
    → con.active_tty < 4
    → length con.ttys ≡ 4
    → ((id : ℕ) → id < 4 → (tty : Tty) × (get_or con.ttys id none ≡ some tty) × IsOnScreen tty)
    → IsConsole (render_active con)
unfolding render_active
render_active-IsConsole con r a n there =
    let (tty, e, ok) = there con.active_tty a in
    subst IsConsole (sym (ap (render_found con) e)) (record {
      ready = r;
      active = a;
      count = n;
      there = there;
      shows = λ t k.
          render-shown (record { tty = tty; vga = con.vga })
          ∙ ap shown (some-injective tty t (sym e ∙ k));
    })

pub tty_switch-IsConsole : (id : ℕ) (con : Console) → IsConsole con → IsConsole (tty_switch id con)
unfolding tty_switch
tty_switch-IsConsole id con h =
    if-All IsConsole (not (ltb id 4) || (id == con.active_tty)) (λ e. h)
      (λ e.
        render_active-IsConsole (record con { active_tty = id }) h.ready (ground (arith, e)) h.count
          h.there)
