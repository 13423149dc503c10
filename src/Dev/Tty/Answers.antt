-- ===== src/Dev/Tty/Answers.antt =====
-- What tty_read answers, and what a key press adds.
use mboot.Prelude.{
  ℕ, ◌+◌, ◌-◌, ◌%◌, ◌≤◌, ◌<◌, ◌≡◌, ◌≢◌, refl, ap, ◌∙◌, sym, Bool, true, false, Option, none, some,
  List, [], ◌∷◌, ◌++◌, ◌==◌, ==_iff, if◌then◌else◌, arith, get_or, take, drop, drop-ge, take-take,
  length-take, ltb, length, inl, inr, Bool-cases, lt→ltb, le→ltb,
}
use mathlib.Core.Path.{subst}
use mboot.Dev.Ring.{queued-push, length-run}
use mboot.Dev.Tty.{Tty, Console}
use mboot.Dev.Tty.Input.{
  give, read_found, tty_push_input, put_tty, Stop, read_loop, read_rest, Read, resumed, tty_read,
}
use mboot.Dev.Tty.Kept.{Keys, keys, Has, put_tty-Has}
use mboot.Dev.Tty.Lines.{edited, IsInput, line_of, queue_of}
use mboot.Dev.Tty.Reads.{Typing, Stopped, read_loop-Stopped}

-- On a terminal whose buffers have their sizes and whose positions lie in them, a key goes behind
-- the keys of the queue, unless it holds 255.
pub tty_push_input-queue :
    (c : ℕ) (tty : Tty)
    → IsInput (keys tty)
    → queue_of (keys (tty_push_input c tty)) ≡ (
        if ltb (length (queue_of (keys tty))) 255
        then queue_of (keys tty) ++ c ∷ []
        else queue_of (keys tty))
unfolding tty_push_input
tty_push_input-queue c tty h =
    let n = length-run tty.input tty.input_tail ((tty.input_head + 256 - tty.input_tail) % 256) in
    elim (Bool-cases ((tty.input_head + 1) % 256 == tty.input_tail)) [
      | inl e ↦
          let full : ltb (length (queue_of (keys tty))) 255 ≡ false = le→ltb _ 255 (
            omega (
              arith,
              n,
              (==_iff ((tty.input_head + 1) % 256) tty.input_tail).0 e,
              h.head,
              h.tail,
            )) in
          rw (e, full)
      | inr e ↦
          let ne : (tty.input_head + 1) % 256 ≢ tty.input_tail =
            λ k. ground (arith, e, (==_iff ((tty.input_head + 1) % 256) tty.input_tail).1 k) in
          let room : ltb (length (queue_of (keys tty))) 255 ≡ true =
            lt→ltb _ 255 (omega (arith, n, ne, h.head, h.tail)) in
          rw (e, room)
            (queued-push tty.input tty.input_head tty.input_tail h.head h.tail c h.input ne)
    ]

-- A terminal whose line has this rest to be read, and this queue of keys.
pub record Holding (id : ℕ) (rest queue : List ℕ) (con : Console) : Type 0 where
  pub fields : Keys
  pub has : Has id fields con
  pub ok : IsInput fields
  pub rest_is : drop fields.pos (line_of fields) ≡ rest
  pub queue_is : queue_of fields ≡ queue

-- What a read gives when the line is complete or the keys have run out.
abbrev pub Answer : ℕ → ℕ → Bool × List ℕ × List ℕ → Read → Type 0
Answer id size (done, line, queue) Read.refused = ⊥
Answer id size (done, line, queue) (Read.sleeping con) = (done ≡ false) × Typing id line queue con
Answer id size (done, line, queue) (Read.given bytes con) =
    (done ≡ true) × (bytes ≡ take size line) × Holding id (drop size line) queue con

drop-fewer :
    (n : ℕ) (xs : List ℕ) → drop (if ltb n (length xs) then n else length xs) xs ≡ drop n xs
drop-fewer n xs = elim (Bool-cases (ltb n (length xs))) [
  | inl e ↦ rw e
  | inr e ↦ rw e (drop-ge (length xs) xs (omega arith) ∙ sym (drop-ge n xs (ground (arith, e))))
]

-- The number of bytes that a read copies.
abbrev copied : (fill pos size : ℕ) → ℕ
copied fill pos size = if ltb (fill - pos) size then fill - pos else size

copied-zero :
    (fill pos size : ℕ) → pos ≡ 0 → copied fill pos size ≡ (if ltb size fill then size else fill)
copied-zero fill pos size e = ground (arith, e)

module _ (store : List ℕ) (fill pos size : ℕ) (e : pos ≡ 0) (h : fill ≤ length store) where
  copied-bytes : take (copied fill pos size) (drop pos store) ≡ take size (take fill store)
  copied-bytes =
      ap (λ n. take n (drop pos store)) (copied-zero fill pos size e)
      ∙ ap (λ p. take (if ltb size fill then size else fill) (drop p store)) e
      ∙ take-take size fill store

  copied-rest : drop (pos + copied fill pos size) (take fill store) ≡ drop size (take fill store)
  copied-rest =
      let l : length (take fill store) ≡ fill = length-take fill store ∙ omega (arith, h) in
      ap (λ n. drop n (take fill store))
        (omega (arith, e, copied-zero fill pos size e)
          ∙ ap (λ n. if ltb size n then size else n) (sym l))
      ∙ drop-fewer size (take fill store)

give-Answer :
    (id size : ℕ) (line queue : List ℕ) (con : Console)
    → id < 4
    → Typing id line queue con
    → Answer id size (true, line, queue) (give id size con (get_or con.ttys id none))
unfolding read_rest
give-Answer id size line queue con valid t =
    let tty = t.has.tty in
    let ok = subst IsInput (sym t.has.fields) t.ok in
    let same : line_of (keys tty) ≡ line = ap line_of t.has.fields ∙ t.line_is in
    let zero_pos : tty.line_pos ≡ 0 = ap (λ (k : Keys). k.pos) t.has.fields ∙ t.unread in
    let fits : tty.line_fill ≤ length tty.line = omega (arith, ok.fill, ok.line) in
    let after = record tty { line_pos = tty.line_pos + copied tty.line_fill tty.line_pos size } in
    subst (λ o. Answer id size (true, line, queue) (give id size con o)) (sym t.has.found)
      (
        refl,
        copied-bytes tty.line tty.line_fill tty.line_pos size zero_pos fits ∙ ap (take size) same,
        record {
          fields = keys after;
          has = put_tty-Has id after t.fields con valid t.has refl refl refl;
          ok = record {
            input = ok.input;
            head = ok.head;
            tail = ok.tail;
            line = ok.line;
            fill = ok.fill;
          };
          rest_is =
              copied-rest tty.line tty.line_fill tty.line_pos size zero_pos fits
              ∙ ap (drop size) same;
          queue_is = ap queue_of t.has.fields ∙ t.queue_is;
        },
      )

finish :
    (id size : ℕ) (r : Bool × List ℕ × List ℕ) (o : Option Stop) (stop : Stop)
    → id < 4
    → o ≡ some stop
    → Stopped id r stop
    → Answer id size r (resumed id size o)
finish id size (done, line, queue) o (Stop.asleep con) valid e s = rw e s
finish id size (done, line, queue) o (Stop.complete con) valid e (d, t) = rw e (
    subst (λ b. Answer id size (b, line, queue) (give id size con (get_or con.ttys id none)))
      (sym d) (give-Answer id size line queue con valid t))

-- A read of a terminal in which no line is left, of a console in order: it never fails. When the
-- keys of the queue, edited, complete a line, it gives its bytes up to the size asked for and
-- leaves the rest of the line for the next read, and the other keys in the queue. Otherwise it
-- sleeps, the line and the queue as the editing left them.
pub tty_read-Answer :
    (id size : ℕ) (k : Keys) (con : Console)
    → id < 4
    → Has id k con
    → IsInput k
    → k.fill ≤ k.pos
    → Answer id size (edited [] (queue_of k)) (tty_read id size con)
unfolding tty_read
tty_read-Answer id size k con valid h ok none_left =
    let fresh = record h.tty { line_fill = 0; line_pos = 0 } in
    let (stop, e, s) =
      read_loop-Stopped 256 id [] (queue_of k) (put_tty id fresh con) valid (omega arith)
        (omega (arith, length-run k.input k.tail ((k.head + 256 - k.tail) % 256)))
        (record {
          fields = keys fresh;
          has = put_tty-Has id fresh k con valid h refl refl refl;
          ok = record {
            input = ap (λ (f : Keys). length f.input) h.fields ∙ ok.input;
            head = omega (arith, ap (λ (f : Keys). f.head) h.fields, ok.head);
            tail = omega (arith, ap (λ (f : Keys). f.tail) h.fields, ok.tail);
            line = ap (λ (f : Keys). length f.line) h.fields ∙ ok.line;
            fill = omega arith;
          };
          unread = refl;
          line_is = refl;
          queue_is = ap queue_of h.fields;
        }) in
    let none_unread : ltb h.tty.line_pos h.tty.line_fill ≡ false =
      le→ltb h.tty.line_pos h.tty.line_fill (
        omega (
          arith,
          none_left,
          ap (λ (f : Keys). f.fill) h.fields,
          ap (λ (f : Keys). f.pos) h.fields,
        )) in
    let found : tty_read id size con ≡ resumed id size (read_loop 256 id (put_tty id fresh con)) =
      ap (λ b. read_found id size con (if b then get_or con.ttys id none else none))
        (lt→ltb id 4 valid)
      ∙ ap (read_found id size con) h.found
      ∙ ap
          (λ b.
            if b
            then give id size con (some h.tty)
            else resumed id size (read_loop 256 id (put_tty id fresh con)))
          none_unread in
    subst (Answer id size (edited [] (queue_of k))) (sym found) (
      finish id size (edited [] (queue_of k)) (read_loop 256 id (put_tty id fresh con)) stop valid e
        s)
