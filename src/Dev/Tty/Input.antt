-- ===== src/Dev/Tty/Input.antt =====
-- The input of stage2/dev/tty.c: the circular queue of keys, and the lines edited from it.
use mboot.Prelude.{
  ℕ, zero, suc, ◌+◌, ◌-◌, ◌%◌, Bool, true, false, ◌&&◌, ◌||◌, Option, none, some, List, [], ◌∷◌,
  ◌==◌, ltb, leb, if◌then◌else◌, get_or, set, take, drop, not,
}
use mboot.Dev.Tty.{Tty, Console, tty_input_size, tty_line_size, write_chars, tty_switch, find_tty}
use mboot.Scheduler.{Scheduler, scheduler_wake}

unfoldable pub tty_push_input : ℕ → Tty → Tty
tty_push_input c tty =
    let next_head = (tty.input_head + 1) % tty_input_size in
    if next_head == tty.input_tail
    then tty
    else record tty { input = set tty.input tty.input_head c; input_head = next_head }

-- `none` is the sleep in scheduler_block, after which the queue is tested again.
unfoldable pub tty_pop_input : Tty → Option (ℕ × Tty)
tty_pop_input tty =
    if tty.input_head == tty.input_tail
    then none
    else some (
      get_or tty.input tty.input_tail 0,
      record tty { input_tail = (tty.input_tail + 1) % tty_input_size },
    )

-- An iteration of the loop of tty_read: the terminal it leaves, what it writes to the terminal, and
-- whether it ends the loop.
pub record Edited : Type 0 where
  pub tty : Tty
  pub echo : List ℕ
  pub complete : Bool

abbrev pub store : ℕ → Tty → Tty
store c tty = record tty { line = set tty.line tty.line_fill c; line_fill = tty.line_fill + 1 }

abbrev pub keep : Tty → Edited
keep tty = record { tty = tty; echo = []; complete = false }

unfoldable pub edit_key : ℕ → Tty → Edited
edit_key key tty =
    let c = if key == 13 then 10 else key in
    if (c == 8) || (c == 0x7F)
    then if ltb 0 tty.line_fill
      then record {
        tty = record tty { line_fill = tty.line_fill - 1 };
        echo = 8 ∷ 32 ∷ 8 ∷ [];
        complete = false;
      }
      else keep tty
    else if c == 10
    then record {
      tty = if ltb tty.line_fill tty_line_size then store 10 tty else tty;
      echo = 13 ∷ 10 ∷ [];
      complete = true;
    }
    else if leb 32 c && ltb c 0x7F
    then if ltb tty.line_fill (tty_line_size - 1)
      then record { tty = store c tty; echo = c ∷ []; complete = false }
      else keep tty
    else keep tty

abbrev pub put_tty : ℕ → Tty → Console → Console
put_tty id tty con = record con { ttys = set con.ttys id (some tty) }

abbrev pub after_key : ℕ → Edited → Console → Console
after_key id e con = write_chars id e.echo (put_tty id e.tty con)

-- Where the loop stops: it sleeps, no key being left, or the line is complete.
pub data Stop : Type 0 where
  asleep complete : Console → Stop

-- The body of the loop, `rest` being what comes behind the iteration.
abbrev pub edit_popped :
    (rest : Console → Option Stop) → ℕ → Console → Option (ℕ × Tty) → Option Stop
edit_popped rest id con none = some (asleep con)
edit_popped rest id con (some (key, popped)) =
    let e = edit_key key popped in
    let con' = after_key id e con in if e.complete then some (complete con') else rest con'

abbrev pub edit_found : (rest : Console → Option Stop) → ℕ → Console → Option Tty → Option Stop
edit_found rest id con none = none
edit_found rest id con (some tty) = edit_popped rest id con (tty_pop_input tty)

-- The loop of tty_read on a terminal that exists. An iteration takes a key from the queue, so that
-- fuel above the length of the queue is enough.
unfoldable pub read_loop : ℕ → ℕ → Console → Option Stop
read_loop zero id con = none
read_loop (suc fuel) id con =
    edit_found (λ con'. read_loop fuel id con') id con (get_or con.ttys id none)

-- The part of tty_read that gives what is left of a complete line.
unfoldable pub read_rest : ℕ → ℕ → Tty → Console → List ℕ × Console
read_rest id size tty con =
    let left = tty.line_fill - tty.line_pos in
    let n = if ltb left size then left else size in
    (
      take n (drop tty.line_pos tty.line),
      put_tty id (record tty { line_pos = tty.line_pos + n }) con,
    )

-- What tty_read does: an error, bytes, or a sleep from which it goes on with its loop.
pub data Read : Type 0 where
  refused : Read
  given : List ℕ → Console → Read
  sleeping : Console → Read

abbrev pub give : ℕ → ℕ → Console → Option Tty → Read
give id size con none = refused
give id size con (some tty) = let (bytes, con') = read_rest id size tty con in given bytes con'

-- The call of tty_read at its end finds a complete line.
abbrev pub resumed : ℕ → ℕ → Option Stop → Read
resumed id size none = refused
resumed id size (some (asleep con)) = sleeping con
resumed id size (some (complete con)) = give id size con (get_or con.ttys id none)

abbrev pub read_found : ℕ → ℕ → Console → Option Tty → Read
read_found id size con none = refused
read_found id size con (some tty) =
    if ltb tty.line_pos tty.line_fill
    then give id size con (some tty)
    else resumed id size
        (read_loop tty_input_size id (put_tty id (record tty { line_fill = 0; line_pos = 0 }) con))

unfoldable pub tty_read : ℕ → ℕ → Console → Read
tty_read id size con = read_found id size con (find_tty id con)

-- The address of a terminal is what its readers wait for.
unfoldable pub tty_handle_key : ℕ → ℕ → Console → Scheduler → Console × Scheduler
unfolding tty_switch tty_push_input scheduler_wake
tty_handle_key scancode ascii con sched =
    if not con.tty_ready
    then (con, sched)
    else if leb 0x3B scancode && leb scancode 0x3E
    then (tty_switch (scancode - 0x3B) con, sched)
    else if ascii == 0
    then (con, sched)
    else elim (get_or con.ttys con.active_tty none) [
      | none ↦ (con, sched)
      | some tty ↦
          (put_tty con.active_tty (tty_push_input ascii tty) con, scheduler_wake tty.addr sched)
    ]
