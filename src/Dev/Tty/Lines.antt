-- ===== src/Dev/Tty/Lines.antt =====
-- An iteration of tty_read's loop edits the line that the terminal holds.
use mboot.Prelude.{
  ℕ, suc, ◌-◌, ◌≤◌, ◌<◌, ◌≡◌, ◌≢◌, refl, ap, ◌∙◌, sym, Bool, true, false, ◌&&◌, ◌||◌, List, [], ◌∷◌,
  ◌++◌, ◌==◌, leb, ltb, ltb→lt, if◌then◌else◌, if-Both, if-All, arith, set, take, length,
  length-set, length-take, length-append, take-set, drop_last, drop_last-take, All,
}
use mathlib.Core.Path.{subst}
use mathlib.Core.Bool.{true≢false}
use mboot.Dev.Ring.{queued}
use mboot.Dev.Tty.{Tty}
use mboot.Dev.Tty.Input.{Edited, edit_key, keep, store}
use mboot.Dev.Tty.Kept.{Keys, keys}

-- What a key does to a line: whether the line is complete, and the line.
unfoldable pub typed : ℕ → List ℕ → Bool × List ℕ
typed key line =
    let c = if key == 13 then 10 else key in
    if (c == 8) || (c == 0x7F)
    then (false, drop_last line)
    else if c == 10
    then (true, line ++ 10 ∷ [])
    else if leb 32 c && ltb c 0x7F
    then if ltb (length line) 255 then (false, line ++ c ∷ []) else (false, line)
    else (false, line)

-- The line that keys make of a line, and the keys left when it is complete.
unfoldable pub edited : List ℕ → List ℕ → Bool × List ℕ × List ℕ
edited line [] = (false, line, [])
edited line (key ∷ rest) =
    let (done, line') = typed key line in
    let next = edited line' rest in if done then (true, line', rest) else next

-- The buffers of a terminal, and where its fields point.
pub record IsInput (k : Keys) : Type 0 where
  pub input : length k.input ≡ 256
  pub head : k.head < 256
  pub tail : k.tail < 256
  pub line : length k.line ≡ 256
  pub fill : k.fill ≤ 256

abbrev pub line_of : Keys → List ℕ
line_of k = take k.fill k.line

abbrev pub queue_of : Keys → List ℕ
queue_of k = queued k.input k.head k.tail

-- What an iteration leaves, beside the line that the list has.
pub record IsStep (tty : Tty) (e : Edited) (t : Bool × List ℕ) : Type 0 where
  pub ok : IsInput (keys e.tty)
  pub queue : queue_of (keys e.tty) ≡ queue_of (keys tty)
  pub line : line_of (keys e.tty) ≡ t.1
  pub complete : e.complete ≡ t.0
  pub room : t.0 ≡ false → length t.1 ≤ 255
  pub echo : All (λ c. c ≢ 12) e.echo
  pub pos : e.tty.line_pos ≡ tty.line_pos
  pub cells : e.tty.cells ≡ tty.cells
  pub column : e.tty.cur_x ≡ tty.cur_x
  pub row : e.tty.cur_y ≡ tty.cur_y

module _ (tty : Tty) (h : IsInput (keys tty)) (room : tty.line_fill ≤ 255) where
  abbrev line : List ℕ
  line = line_of (keys tty)

  length-line : length line ≡ tty.line_fill
  length-line = length-take tty.line_fill tty.line ∙ omega (arith, h.line, room)

  keep-IsStep : IsStep tty (keep tty) (false, line)
  keep-IsStep = record {
    ok = h;
    queue = refl;
    line = refl;
    complete = refl;
    room = λ e. omega (arith, length-line, room);
    echo = tt;
    pos = refl;
    cells = refl;
    column = refl;
    row = refl;
  }

  store-IsStep :
      (c : ℕ) (echo : List ℕ) (done : Bool)
      → All (λ d. d ≢ 12) echo
      → (done ≡ false → tty.line_fill < 255)
      → IsStep tty
          (record { tty = store c tty; echo = echo; complete = done })
          (done, line ++ c ∷ [])
  store-IsStep c echo done safe small = record {
    ok = record {
      input = h.input;
      head = h.head;
      tail = h.tail;
      line = length-set tty.line tty.line_fill c ∙ h.line;
      fill = omega (arith, room);
    };
    queue = refl;
    line =
        ap (λ n. take n (set tty.line tty.line_fill c)) {y = suc tty.line_fill} (omega arith)
        ∙ take-set tty.line_fill tty.line c (omega (arith, h.line, room));
    complete = refl;
    room = λ e. omega (arith, length-append line (c ∷ []), length-line, small e);
    echo = safe;
    pos = refl;
    cells = refl;
    column = refl;
    row = refl;
  }

  erase-IsStep :
      ltb 0 tty.line_fill ≡ true
      → IsStep tty
          (record {
            tty = record tty { line_fill = tty.line_fill - 1 };
            echo = 8 ∷ 32 ∷ 8 ∷ [];
            complete = false;
          })
          (false, drop_last line)
  erase-IsStep e =
      let pos = ltb→lt 0 tty.line_fill e in
      let shorter : drop_last line ≡ take (tty.line_fill - 1) tty.line =
        ap (λ n. drop_last (take n tty.line)) {y = suc (tty.line_fill - 1)} (omega (arith, pos))
        ∙ drop_last-take (tty.line_fill - 1) tty.line (omega (arith, h.line, room, pos)) in
      record {
        ok = record {
          input = h.input;
          head = h.head;
          tail = h.tail;
          line = h.line;
          fill = omega (arith, room);
        };
        queue = refl;
        line = sym shorter;
        complete = refl;
        room =
            λ e. omega (arith, ap length shorter, length-take (tty.line_fill - 1) tty.line, room);
        echo = ((λ e. omega (arith, e)), ((λ e. omega (arith, e)), ((λ e. omega (arith, e)), tt)));
        pos = refl;
        cells = refl;
        column = refl;
        row = refl;
      }

  empty-line : ltb 0 tty.line_fill ≡ false → drop_last line ≡ line
  empty-line e =
      let z : tty.line_fill ≡ 0 = ground (arith, e) in
      ap (λ n. drop_last (take n tty.line)) z ∙ ap (λ n. take n tty.line) (sym z)

  pub edit_key-IsStep : (key : ℕ) → IsStep tty (edit_key key tty) (typed key line)
  unfolding edit_key typed
  edit_key-IsStep key =
      if-Both (IsStep tty) ((c == 8) || (c == 0x7F))
        (λ e.
          if-All (λ x. IsStep tty x (false, drop_last line)) (ltb 0 tty.line_fill) erase-IsStep
            (λ k. subst (λ l. IsStep tty (keep tty) (false, l)) (sym (empty-line k)) keep-IsStep))
        (λ e.
          if-Both (IsStep tty) (c == 10)
            (λ k.
              if-All
                (λ x.
                  IsStep tty (record { tty = x; echo = 13 ∷ 10 ∷ []; complete = true })
                    (true, line ++ 10 ∷ []))
                (ltb tty.line_fill 256)
                (λ b.
                  store-IsStep 10 (13 ∷ 10 ∷ []) true
                    ((λ e. omega (arith, e)), ((λ e. omega (arith, e)), tt))
                    (λ f. absurd (true≢false f)))
                (λ b. ground (arith, b, room)))
            (λ k.
              if-Both (IsStep tty) (leb 32 c && ltb c 0x7F)
                (λ p.
                  subst
                    (λ n.
                      IsStep tty
                        (if ltb tty.line_fill 255
                          then record { tty = store c tty; echo = c ∷ []; complete = false }
                          else keep tty)
                        (if ltb n 255 then (false, line ++ c ∷ []) else (false, line)))
                    (sym length-line)
                    (if-Both (IsStep tty) (ltb tty.line_fill 255)
                      (λ b.
                        store-IsStep c (c ∷ []) false ((λ s. printable (rw s at p)), tt)
                          (λ f. ltb→lt tty.line_fill 255 b))
                      (λ b. keep-IsStep)))
                (λ p. keep-IsStep)))
    where
      c : ℕ
      c = if key == 13 then 10 else key

      printable : leb 32 12 && ltb 12 0x7F ≡ true → ⊥
      printable e = true≢false (sym e)
