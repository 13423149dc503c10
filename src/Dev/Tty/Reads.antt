-- ===== src/Dev/Tty/Reads.antt =====
-- A line read from a terminal is the keys typed, edited.
use mboot.Prelude.{
  ℕ, zero, suc, ◌+◌, ◌-◌, ◌%◌, ◌≤◌, ◌<◌, ◌≡◌, ◌≢◌, refl, ap, ◌∙◌, sym, Bool, true, false, Option,
  none, some, List, [], ◌∷◌, ==_iff, if◌then◌else◌, arith, get_or, drop, length, length-take, inl,
  inr, Bool-cases,
}
use mathlib.Core.Path.{subst}
use mboot.Dev.Ring.{queued, queued-pop, length-run}
use mboot.Dev.Tty.{Tty, Console}
use mboot.Dev.Tty.Input.{
  Edited, edit_key, edit_popped, edit_found, tty_pop_input, put_tty, after_key, Stop, read_loop,
}
use mboot.Dev.Tty.Kept.{Keys, keys, Has, write_chars-Has, put_tty-Has}
use mboot.Dev.Tty.Lines.{typed, edited, IsInput, line_of, queue_of, edit_key-IsStep}

-- A console in order, in which the terminal has this line, none of it read, and this queue of keys.
pub record Typing (id : ℕ) (line queue : List ℕ) (con : Console) : Type 0 where
  pub fields : Keys
  pub has : Has id fields con
  pub ok : IsInput fields
  pub unread : fields.pos ≡ 0
  pub line_is : line_of fields ≡ line
  pub queue_is : queue_of fields ≡ queue

-- Where the loop stops: the console has the line, and the keys left.
abbrev pub Stopped : ℕ → Bool × List ℕ × List ℕ → Stop → Type 0
Stopped id (done, line, rest) (Stop.asleep con) = (done ≡ false) × Typing id line rest con
Stopped id (done, line, rest) (Stop.complete con) = (done ≡ true) × Typing id line rest con

module _ (k : Keys) (h : IsInput k) where
  queue-empty : queue_of k ≡ [] → k.head ≡ k.tail
  queue-empty e =
      let n : (k.head + 256 - k.tail) % 256 ≡ 0 =
        sym (length-run k.input k.tail ((k.head + 256 - k.tail) % 256)) ∙ ap length e in
      omega (arith, n, h.head, h.tail)

  queue-key :
      (key : ℕ) (rest : List ℕ)
      → queue_of k ≡ key ∷ rest
      → (k.head ≢ k.tail)
        × (get_or k.input k.tail 0 ≡ key)
        × (queued k.input k.head ((k.tail + 1) % 256) ≡ rest)
  queue-key key rest e =
      let n : (k.head + 256 - k.tail) % 256 ≡ suc (length rest) =
        sym (length-run k.input k.tail ((k.head + 256 - k.tail) % 256)) ∙ ap length e in
      let ne : k.head ≢ k.tail = λ s. omega (arith, n, s, h.head, h.tail) in
      let both = sym (queued-pop k.input k.head k.tail h.head h.tail ne) ∙ e in
      (ne, ap (λ l. get_or l 0 0) both, ap (λ l. drop 1 l) both)

pop-none : (tty : Tty) → tty.input_head ≡ tty.input_tail → tty_pop_input tty ≡ none
unfolding tty_pop_input
pop-none tty e = rw ((==_iff tty.input_head tty.input_tail).1 e)

pop-some :
    (tty : Tty)
    → tty.input_head ≢ tty.input_tail
    → tty_pop_input tty
      ≡ some (
        get_or tty.input tty.input_tail 0,
        record tty { input_tail = (tty.input_tail + 1) % 256 },
      )
unfolding tty_pop_input
pop-some tty n = ground (arith, n)

module _ (id : ℕ) (valid : id < 4) (line : List ℕ) (room : length line ≤ 255) (con : Console) where
  module _ (key : ℕ) (queue : List ℕ) (t : Typing id line (key ∷ queue) con) where
    popped : Tty
    popped = record t.has.tty { input_tail = (t.has.tty.input_tail + 1) % 256 }

    e : Edited
    e = edit_key key popped

    at_tail :
        (t.has.tty.input_head ≢ t.has.tty.input_tail)
        × (get_or t.has.tty.input t.has.tty.input_tail 0 ≡ key)
        × (queued t.has.tty.input t.has.tty.input_head ((t.has.tty.input_tail + 1) % 256) ≡ queue)
    at_tail =
        queue-key (keys t.has.tty) (subst IsInput (sym t.has.fields) t.ok) key queue
          (ap queue_of t.has.fields ∙ t.queue_is)

    -- What an iteration of the loop leaves.
    after-Typing :
        Typing id (typed key line).1 queue (after_key id e con)
        × (e.complete ≡ (typed key line).0)
        × ((typed key line).0 ≡ false → length (typed key line).1 ≤ 255)
    unfolding popped e
    after-Typing =
        let tty = t.has.tty in
        let ok = subst IsInput (sym t.has.fields) t.ok in
        let same : line_of (keys tty) ≡ line = ap line_of t.has.fields ∙ t.line_is in
        let (ne, first, others) = at_tail in
        let s =
          edit_key-IsStep popped
            (record {
              input = ok.input;
              head = ok.head;
              tail = omega arith;
              line = ok.line;
              fill = ok.fill;
            })
            (omega
              (arith, length-take tty.line_fill tty.line, ok.line, ok.fill, ap length same, room))
            key in
        (
          record {
            fields = keys e.tty;
            has =
                write_chars-Has id e.echo (keys e.tty) (put_tty id e.tty con) valid s.echo
                  (put_tty-Has id e.tty t.fields con valid t.has s.cells s.column s.row);
            ok = s.ok;
            unread = s.pos ∙ ap (λ (k : Keys). k.pos) t.has.fields ∙ t.unread;
            line_is = s.line ∙ ap (λ l. (typed key l).1) same;
            queue_is = s.queue ∙ others;
          },
          s.complete ∙ ap (λ l. (typed key l).0) same,
          λ f. omega (
            arith,
            ap (λ l. length (typed key l).1) same,
            s.room (ap (λ l. (typed key l).0) same ∙ f),
          ),
        )

    -- The loop's body, when the queue has a key.
    body-key :
        (rest : Console → Option Stop)
        → edit_found rest id con (get_or con.ttys id none) ≡ (
            if (typed key line).0
            then some (Stop.complete (after_key id e con))
            else rest (after_key id e con))
    unfolding popped e
    body-key rest =
        ap (edit_found rest id con) t.has.found
        ∙ ap (edit_popped rest id con)
            (pop-some t.has.tty at_tail.0 ∙ ap (λ c. some (c, popped)) at_tail.1)
        ∙ ap
            (λ b.
              if b then some (Stop.complete (after_key id e con)) else rest (after_key id e con))
            after-Typing.1

-- The loop, with fuel above the number of keys in the queue, stops as the editing of the line by
-- those keys does.
pub read_loop-Stopped :
    (fuel id : ℕ) (line queue : List ℕ) (con : Console)
    → id < 4
    → length line ≤ 255
    → length queue < fuel
    → Typing id line queue con
    → (stop : Stop) × (read_loop fuel id con ≡ some stop) × Stopped id (edited line queue) stop
unfolding read_loop edited
read_loop-Stopped zero id line queue con valid room f t = absurd (omega (arith, f))
read_loop-Stopped (suc fuel) id line [] con valid room f t =
    let ok = subst IsInput (sym t.has.fields) t.ok in
    (
      Stop.asleep con,
      ap (edit_found (λ con'. read_loop fuel id con') id con) t.has.found
          ∙ ap (edit_popped (λ con'. read_loop fuel id con') id con) (
              pop-none t.has.tty
                (queue-empty (keys t.has.tty) ok (ap queue_of t.has.fields ∙ t.queue_is))),
      (refl, t),
    )
read_loop-Stopped (suc fuel) id line (key ∷ queue) con valid room f t =
    let body = body-key id valid line room con key queue t (λ con'. read_loop fuel id con') in
    let (t', same, short) = after-Typing id valid line room con key queue t in
    elim (Bool-cases (typed key line).0) [
      | inl b ↦ rw (body, b) (Stop.complete (next key t), refl, (refl, t'))
      | inr b ↦
          rw (body, b)
            (read_loop-Stopped fuel id (typed key line).1 queue (next key t) valid (short b)
              (omega (arith, f)) t')
    ]
  where
    next : (key : ℕ) → Typing id line (key ∷ queue) con → Console
    next key t = after_key id (e id valid line room con key queue t) con
