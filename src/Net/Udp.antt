-- ===== src/Net/Udp.antt =====
-- The UDP servers of stage2/net/udp.c: the table of servers, and the ring of datagrams of each.
--
-- A server is found by its port; the pointer to it that udp_find_server gives is its place in the
-- table. The bytes of a payload are a list, a slot's buffer one of 1472 of them.
pub mod Ring
pub mod Servers
pub mod Early
mod Tests
use mboot.Prelude.{
  ℕ, ◌+◌, ◌-◌, ◌%◌, ◌^◌, Bool, true, false, Option, none, some, List, [], ◌∷◌, ◌++◌, ◌==◌, ltb, leb,
  if◌then◌else◌, length, get_or, set, take, drop, replicate,
}
use mboot.Scheduler.{Scheduler, scheduler_wake}

abbrev pub udp_max_servers : ℕ
udp_max_servers = 4

abbrev pub udp_max_queue : ℕ
udp_max_queue = 16

abbrev pub udp_max_dgram : ℕ
udp_max_dgram = 1472

-- `uint8_t ip[4]`
pub record Ip : Type 0 where
  pub byte0 : ℕ
  pub byte1 : ℕ
  pub byte2 : ℕ
  pub byte3 : ℕ

-- `udp_dgram_t`
pub record Dgram : Type 0 where
  pub len : ℕ
  pub src_ip : Ip
  pub src_port : ℕ
  pub payload : List ℕ

-- `udp_user_server_t`
pub record Server : Type 0 where
  pub port : ℕ
  pub queue : List Dgram
  pub head : ℕ
  pub count : ℕ

-- what memset leaves in a slot
abbrev pub zeroed_dgram : Dgram
zeroed_dgram = record {
  len = 0;
  src_ip = record { byte0 = 0; byte1 = 0; byte2 = 0; byte3 = 0 };
  src_port = 0;
  payload = replicate udp_max_dgram 0;
}

abbrev pub new_server : ℕ → Server
new_server port = record {
  port = port;
  queue = replicate udp_max_queue zeroed_dgram;
  head = 0;
  count = 0;
}

unfoldable pub udp_find_server : ℕ → List (Option Server) → Option Server
udp_find_server port [] = none
udp_find_server port (none ∷ slots) = udp_find_server port slots
udp_find_server port (some server ∷ slots) =
    if server.port == port then some server else udp_find_server port slots

-- The write through the pointer of the server with the port.
unfoldable pub put_server : Server → List (Option Server) → List (Option Server)
put_server server [] = []
put_server server (none ∷ slots) = none ∷ put_server server slots
put_server server (some old ∷ slots) =
    if old.port == server.port then some server ∷ slots else some old ∷ put_server server slots

-- A server in the first free slot; `none` when all are taken.
unfoldable pub fill_slot : Server → List (Option Server) → Option (List (Option Server))
fill_slot server [] = none
fill_slot server (none ∷ slots) = some (some server ∷ slots)
fill_slot server (some old ∷ slots) = elim (fill_slot server slots) [
  | none ↦ none
  | some slots' ↦ some (some old ∷ slots')
]

-- `none` is the error -1.
unfoldable pub udp_server_bind : ℕ → List (Option Server) → Option (List (Option Server))
unfolding udp_find_server fill_slot
udp_server_bind port slots = elim (udp_find_server port slots) [
  | some server ↦ some slots
  | none ↦ fill_slot (new_server port) slots
]

-- The datagram of a slot, a message of at most 1472 bytes copied over it.
abbrev pub written : Dgram → Ip → ℕ → List ℕ → Dgram
written old src_ip src_port bytes = record {
  len = length bytes;
  src_ip = src_ip;
  src_port = src_port;
  payload = bytes ++ drop (length bytes) old.payload;
}

-- `none` is a copy beyond the slot's buffer, whose effect C leaves open.
unfoldable pub udp_server_enqueue :
    Server → Ip → ℕ → List ℕ → Scheduler → Option (Server × Scheduler)
udp_server_enqueue server src_ip src_port bytes sched =
    if leb udp_max_queue server.count
    then some (server, sched)
    else if ltb udp_max_dgram (length bytes)
    then none
    else let slot = (server.head + server.count) % udp_max_queue in
      let dgram = written (get_or server.queue slot zeroed_dgram) src_ip src_port bytes in
      some (
        record server { queue = set server.queue slot dgram; count = (server.count + 1) % 2 ^ 8 },
        scheduler_wake server.port sched,
      )

-- What udp_server_recv gives through its pointers.
pub record Received : Type 0 where
  pub src_ip : Ip
  pub src_port : ℕ
  pub payload : List ℕ

abbrev pub received : ℕ → Dgram → Received
received max_len d =
    let n = if ltb max_len d.len then max_len else d.len in
    record { src_ip = d.src_ip; src_port = d.src_port; payload = take n d.payload }

-- The dequeue from a server that is not empty.
unfoldable pub dequeue : ℕ → Server → Server × Received
dequeue max_len server = (
  record server {
    head = (server.head + 1) % udp_max_queue;
    count = (server.count + 2 ^ 8 - 1) % 2 ^ 8;
  },
  received max_len (get_or server.queue server.head zeroed_dgram),
)

-- `none` is the error -1.
unfoldable pub udp_server_recv :
    ℕ → ℕ → List (Option Server) → Option (List (Option Server) × Received)
unfolding udp_find_server put_server dequeue
udp_server_recv port max_len slots = elim (udp_find_server port slots) [
  | none ↦ none
  | some server ↦
      if server.count == 0
      then none
      else let (server', r) = dequeue max_len server in some (put_server server' slots, r)
]
