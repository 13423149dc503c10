-- ===== src/Net/Udp/Servers.antt =====
-- The table of servers: what a bind, a datagram and a read do to each port's queue.
use mboot.Prelude.{
  All, ℕ, suc, ◌≡◌, ◌≢◌, refl, sym, ap, ◌∙◌, false, Option, none, some, List, [], ◌∷◌, arith, ◌==◌,
  ==_iff, ◌⊎◌, inl, inr, Option-cases, take, length,
}
use mboot.Net.Udp.{
  Server, udp_find_server, put_server, fill_slot, new_server, udp_server_bind, dequeue,
  udp_server_recv,
}
use mboot.Net.Udp.Ring.{Message, messages, run, IsRing, dequeue-messages, length-messages}

udp_find_server-port :
    (port : ℕ) (slots : List (Option Server)) (s : Server)
    → udp_find_server port slots ≡ some s
    → s.port ≡ port
unfolding udp_find_server
udp_find_server-port port [] s e = ground (arith, e)
udp_find_server-port port (none ∷ slots) s e = udp_find_server-port port slots s e
udp_find_server-port port (some old ∷ slots) s e =
    let rest = udp_find_server-port port slots s in ground (arith, rest)

put_server-found :
    (port : ℕ) (s s' : Server) (slots : List (Option Server))
    → udp_find_server port slots ≡ some s
    → s'.port ≡ port
    → udp_find_server port (put_server s' slots) ≡ some s'
unfolding udp_find_server put_server
put_server-found port s s' [] e p = ground (arith, e)
put_server-found port s s' (none ∷ slots) e p = put_server-found port s s' slots e p
put_server-found port s s' (some old ∷ slots) e p =
    let rest = put_server-found port s s' slots in ground (arith, rest)

put_server-other :
    (port : ℕ) (s' : Server) (slots : List (Option Server))
    → s'.port ≢ port
    → udp_find_server port (put_server s' slots) ≡ udp_find_server port slots
unfolding udp_find_server put_server
put_server-other port s' [] p = refl
put_server-other port s' (none ∷ slots) p = put_server-other port s' slots p
put_server-other port s' (some old ∷ slots) p =
    let rest = put_server-other port s' slots p in ground (arith, rest)

module _ (port max_len : ℕ) (slots : List (Option Server)) where
  -- What a read from the port gives, by what its queue holds.
  abbrev pub Answer : List Message → Type 0
  Answer [] = udp_server_recv port max_len slots ≡ none
  Answer (m ∷ ms) =
      (slots' : List (Option Server)) × (udp_server_recv port max_len slots
        ≡ some (slots', record m { payload = take max_len m.payload }))
      × ((s : Server) × (udp_find_server port slots' ≡ some s) × IsRing s × (messages s ≡ ms))
      × ((other : ℕ) → other ≢ port → udp_find_server other slots' ≡ udp_find_server other slots)

  module _ (s : Server) (found : udp_find_server port slots ≡ some s) (ring : IsRing s) where
    answer : (ms : List Message) → messages s ≡ ms → Answer ms
    unfolding udp_server_recv
    answer [] e =
        let n : s.count ≡ 0 = sym (length-messages s) ∙ ap length e in
        rw (udp_server_recv, found, (==_iff s.count 0).1 n)
    answer (m ∷ ms) e =
        let n : s.count ≡ suc (length ms) = sym (length-messages s) ∙ ap length e in
        let full : (s.count == 0) ≡ false = ground arith in
        let (r, rest, out) = dequeue-messages s ring max_len m ms e in
        (
          put_server (dequeue max_len s).0 slots,
          rw (udp_server_recv, found, full, out),
          (
            (dequeue max_len s).0,
            put_server-found port s (dequeue max_len s).0 slots found
                (udp_find_server-port port slots s found),
            r,
            rest,
          ),
          λ other ne.
              put_server-other other (dequeue max_len s).0 slots
                (λ k. ne (sym k ∙ udp_find_server-port port slots s found)),
        )

    -- A read from a bound port with an empty queue is an error. Otherwise it gives the oldest
    -- datagram, cut to the caller's buffer; the rest of the queue and the other ports' servers stay.
    pub udp_server_recv-Answer : Answer (messages s)
    udp_server_recv-Answer = answer (messages s) refl

abbrev pub Taken : Option Server → Type 0
Taken none = ⊥
Taken (some s) = Unit

fill_slot-cases :
    (s : Server) (slots : List (Option Server))
    → ((fill_slot s slots ≡ none) × All Taken slots)
      ⊎ ((slots' : List (Option Server)) × (fill_slot s slots ≡ some slots')
          × (udp_find_server s.port slots ≡ none → udp_find_server s.port slots' ≡ some s)
          × ((other : ℕ)
              → other ≢ s.port
              → udp_find_server other slots' ≡ udp_find_server other slots))
unfolding udp_find_server fill_slot
fill_slot-cases s [] = inl (refl, tt)
fill_slot-cases s (none ∷ slots) =
    inr (some s ∷ slots, refl, (λ e. rw ((==_iff s.port s.port).1 refl)), λ other ne. ground arith)
fill_slot-cases s (some old ∷ slots) = elim (fill_slot-cases s slots) [
  | inl (e, taken) ↦ inl (rw e, (tt, taken))
  | inr (rest, e, here, others) ↦ inr (
    some old ∷ rest,
    rw e,
    (λ f. ground (arith, here)),
    λ other ne. let k = others other ne in ground arith,
  )
]

-- What a bind of the port leaves.
abbrev pub Bound : ℕ → List (Option Server) → List (Option Server) → Type 0
Bound port slots slots' =
    ((s : Server) × (udp_find_server port slots' ≡ some s)
      × ((udp_find_server port slots ≡ some s)
          ⊎ ((udp_find_server port slots ≡ none) × IsRing s × (messages s ≡ []))))
    × ((other : ℕ) → other ≢ port → udp_find_server other slots' ≡ udp_find_server other slots)

new_server-IsRing : (port : ℕ) → IsRing (new_server port)
new_server-IsRing port = record { slots = refl; head = omega arith; count = omega arith }

new_server-messages : (port : ℕ) → messages (new_server port) ≡ []
unfolding run
new_server-messages port = refl

-- A bind fails only on a port that is not bound while every slot is taken. Otherwise the port has a
-- server: the one it had, or a new one with an empty queue; the other ports keep theirs.
pub udp_server_bind-Bound :
    (port : ℕ) (slots : List (Option Server))
    → ((udp_server_bind port slots ≡ none) × (udp_find_server port slots ≡ none) × All Taken slots)
      ⊎ ((slots' : List (Option Server)) × (udp_server_bind port slots ≡ some slots')
          × Bound port slots slots')
unfolding udp_server_bind
udp_server_bind-Bound port slots = elim (Option-cases (udp_find_server port slots)) [
  | inr (s, e) ↦ inr (slots, rw (udp_server_bind, e), ((s, e, inl e), λ other ne. refl))
  | inl e ↦ elim (fill_slot-cases (new_server port) slots) [
    | inl (f, taken) ↦ inl (rw (udp_server_bind, e, f), e, taken)
    | inr (slots', f, here, others) ↦ inr (
      slots',
      rw (udp_server_bind, e, f),
      (
        (new_server port, here e, inr (e, new_server-IsRing port, new_server-messages port)),
        others,
      ),
    )
  ]
]
