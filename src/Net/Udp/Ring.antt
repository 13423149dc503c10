-- ===== src/Net/Udp/Ring.antt =====
-- The ring of a server is a queue of at most 16 messages.
use mboot.Prelude.{
  if◌then◌else◌, Bool-cases, inl, inr, ℕ, zero, suc, ◌+◌, ◌-◌, ◌%◌, ◌^◌, ◌≤◌, ◌<◌, ◌≡◌, refl, sym,
  ap, ◌∙◌, true, false, some, List, [], ◌∷◌, ◌++◌, arith, length, get_or, set, take, drop,
  take-append, take-take, leb, ltb, length-set, get_or-set, get_or-set_ne, le→ltb, lt→ltb, leb→le,
}
use mboot.Scheduler.{Scheduler, scheduler_wake}
use mboot.Net.Udp.{
  Ip, Dgram, Server, Received, zeroed_dgram, written, udp_server_enqueue, dequeue, received,
}

abbrev pub Message : Type 0
Message = Received

abbrev pub message : Dgram → Message
message d = record { src_ip = d.src_ip; src_port = d.src_port; payload = take d.len d.payload }

abbrev pub at : List Dgram → ℕ → Dgram
at q i = get_or q (i % 16) zeroed_dgram

-- The messages of `n` slots from `i` on, round the ring.
unfoldable pub run : List Dgram → ℕ → ℕ → List Message
run q i zero = []
run q i (suc n) = message (at q i) ∷ run q (i + 1) n

-- What a server holds, the oldest message first.
abbrev pub messages : Server → List Message
messages s = run s.queue s.head s.count

pub record IsRing (s : Server) : Type 0 where
  pub slots : length s.queue ≡ 16
  pub head : s.head < 16
  pub count : s.count ≤ 16

run-mod : (q : List Dgram) (i j n : ℕ) → i % 16 ≡ j % 16 → run q i n ≡ run q j n
unfolding run
run-mod q i j zero e = refl
run-mod q i j (suc n) e = rw (e, run-mod q (i + 1) (j + 1) n (omega (arith, e)))

run-add_one :
    (q : List Dgram) (i n : ℕ) → run q i (suc n) ≡ run q i n ++ message (at q (i + n)) ∷ []
unfolding run
run-add_one q i zero = ap (λ k. message (at q k) ∷ []) (omega arith)
run-add_one q i (suc n) =
    ap (λ l. message (at q i) ∷ l)
      (run-add_one q (i + 1) n ∙ ap (λ k. run q (i + 1) n ++ message (at q k) ∷ []) (omega arith))

run-set :
    (q : List Dgram) (d : Dgram) (i n slot : ℕ)
    → slot ≡ (i + n) % 16
    → n < 16
    → run (set q slot d) i n ≡ run q i n
unfolding run
run-set q d i zero slot e h = refl
run-set q d i (suc n) slot e h = rw (
  get_or-set_ne q slot (i % 16) d zeroed_dgram (omega (arith, e, h)),
  run-set q d (i + 1) n slot (omega (arith, e)) (omega (arith, h)),
)

-- A slot written behind the last one.
run-snoc :
    (q : List Dgram) (d : Dgram) (i n : ℕ)
    → length q ≡ 16
    → n < 16
    → run (set q ((i + n) % 16) d) i ((n + 1) % 2 ^ 8) ≡ run q i n ++ message d ∷ []
run-snoc q d i n l h =
    ap (run (set q ((i + n) % 16) d) i) (omega (arith, h))
    ∙ run-add_one (set q ((i + n) % 16) d) i n
    ∙ rw (
      run-set q d i n ((i + n) % 16) refl h,
      get_or-set q ((i + n) % 16) d zeroed_dgram (omega (arith, l)),
    )

length-run : (q : List Dgram) (i n : ℕ) → length (run q i n) ≡ n
unfolding run
length-run q i zero = refl
length-run q i (suc n) = ap suc (length-run q (i + 1) n)

run-suc : (q : List Dgram) (i n : ℕ) → message (at q i) ∷ run q (i + 1) n ≡ run q i (suc n)
unfolding run
run-suc q i n = refl

received-message :
    (max_len : ℕ) (d : Dgram)
    → received max_len d ≡ record (message d) { payload = take max_len (message d).payload }
received-message max_len d =
    ap (λ p. record { src_ip = d.src_ip; src_port = d.src_port; payload = p })
      (take-take max_len d.len d.payload)

-- What a queue of at most 16 messages promises.
unfoldable pub push : Message → List Message → List Message
push m ms = if ltb (length ms) 16 then ms ++ m ∷ [] else ms

pub length-messages : (s : Server) → length (messages s) ≡ s.count
length-messages s = length-run s.queue s.head s.count

module _ (s : Server) (ring : IsRing s) where
  held : length (messages s) ≡ s.count
  held = length-messages s

  -- A datagram of at most 1472 bytes never leaves its slot. A ring with room takes it behind the
  -- messages it holds and wakes the tasks that sleep on the port; a full one drops it.
  pub udp_server_enqueue-push :
      (src_ip : Ip) (src_port : ℕ) (bytes : List ℕ) (sched : Scheduler)
      → length bytes ≤ 1472
      → (s' : Server) × (udp_server_enqueue s src_ip src_port bytes sched
          ≡ some (s', if ltb (length (messages s)) 16 then scheduler_wake s.port sched else sched))
        × IsRing s'
        × (s'.port ≡ s.port)
        × (messages s'
            ≡ push (record { src_ip = src_ip; src_port = src_port; payload = bytes }) (messages s))
  unfolding udp_server_enqueue push
  udp_server_enqueue-push src_ip src_port bytes sched b = elim (Bool-cases (leb 16 s.count)) [
    | inl e ↦
        let full : ltb (length (messages s)) 16 ≡ false =
          le→ltb (length (messages s)) 16 (omega (arith, held, leb→le 16 s.count e)) in
        (s, rw (e, full), ring, refl, rw full)
    | inr e ↦
        let room : s.count < 16 = ground arith in
        let free : ltb (length (messages s)) 16 ≡ true =
          lt→ltb (length (messages s)) 16 (omega (arith, held, room)) in
        (
          after,
          rw (e, free, le→ltb 1472 (length bytes) b),
          record {
            slots = length-set s.queue slot _ ∙ ring.slots;
            head = ring.head;
            count = omega (arith, room);
          },
          refl,
          rw free (
              run-snoc s.queue (written (get_or s.queue slot zeroed_dgram) src_ip src_port bytes)
                s.head s.count ring.slots room
              ∙ ap
                  (λ b'.
                    messages s
                    ++ record { src_ip = src_ip; src_port = src_port; payload = b' } ∷ [])
                  (take-append bytes _)),
        )
  ]
    where
      slot : ℕ
      slot = (s.head + s.count) % 16

      after : Server
      after = record s {
        queue = set s.queue slot (written (get_or s.queue slot zeroed_dgram) src_ip src_port bytes);
        count = (s.count + 1) % 2 ^ 8;
      }

  -- The oldest message comes out, cut to the caller's buffer, and the rest stay.
  pub dequeue-messages :
      (max_len : ℕ) (m : Message) (ms : List Message)
      → messages s ≡ m ∷ ms
      → IsRing (dequeue max_len s).0
        × (messages (dequeue max_len s).0 ≡ ms)
        × ((dequeue max_len s).1 ≡ record m { payload = take max_len m.payload })
  unfolding dequeue
  dequeue-messages max_len m ms e =
      let n : s.count ≡ suc (length ms) = sym held ∙ ap length e in
      let count : (s.count + 2 ^ 8 - 1) % 2 ^ 8 ≡ length ms = omega (arith, n, ring.count) in
      let all : message (at s.queue s.head) ∷ run s.queue (s.head + 1) (length ms) ≡ m ∷ ms =
        run-suc s.queue s.head (length ms) ∙ ap (run s.queue s.head) (sym n) ∙ e in
      (
        record {
          slots = ring.slots;
          head = omega arith;
          count = omega (arith, count, n, ring.count);
        },
        ap (run s.queue ((s.head + 1) % 16)) count
            ∙ run-mod s.queue ((s.head + 1) % 16) (s.head + 1) (length ms) (omega arith)
            ∙ ap (drop 1) all,
        ap (λ i. received max_len (get_or s.queue i zeroed_dgram)) (omega (arith, ring.head))
            ∙ received-message max_len (at s.queue s.head)
            ∙ ap (λ (x : Message). record x { payload = take max_len x.payload })
                (ap (λ l. get_or l 0 m) all),
      )
