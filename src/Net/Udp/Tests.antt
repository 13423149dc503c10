-- ===== src/Net/Udp/Tests.antt =====
-- The UDP servers on concrete tables: runs of the code, and the theorems where they apply.
use mboot.Prelude.{
  ℕ, ◌+◌, inl, inr, ◌≡◌, ◌⊎◌, refl, some, none, Option, List, [], ◌∷◌, arith, ltb, length,
  if◌then◌else◌, All,
}
use mboot.Scheduler.{Tcb, TaskState, Scheduler, running, blocked, ready, scheduler_wake}
use mboot.Scheduler.Wait.{Early}
use mboot.Net.Udp.Early.{udp_server_enqueue-Early}
use mboot.Net.Udp.{
  Ip, Server, Dgram, new_server, udp_find_server, udp_server_bind, udp_server_enqueue,
  udp_server_recv, zeroed_dgram,
}
use mboot.Net.Udp.Ring.{messages, IsRing, push, udp_server_enqueue-push}
use mboot.Net.Udp.Servers.{Answer, Bound, Taken, udp_server_bind-Bound, udp_server_recv-Answer}

abbrev peer : Ip
peer = record { byte0 = 10; byte1 = 0; byte2 = 2; byte3 = 2 }

abbrev no_tasks : Scheduler
no_tasks = record { ring = []; idle_task = 0; next_pid = 0; cr3 = 0 }

abbrev stored : Dgram
stored = record { len = 3; src_ip = peer; src_port = 4000; payload = 65 ∷ 66 ∷ 67 ∷ [] }

-- One datagram, in the last slot of the ring.
abbrev server : Server
server = record {
  port = 7;
  queue =
      zeroed_dgram ∷ zeroed_dgram ∷ zeroed_dgram ∷ zeroed_dgram ∷ zeroed_dgram ∷ zeroed_dgram
      ∷ zeroed_dgram ∷ zeroed_dgram ∷ zeroed_dgram ∷ zeroed_dgram ∷ zeroed_dgram ∷ zeroed_dgram
      ∷ zeroed_dgram ∷ zeroed_dgram ∷ zeroed_dgram ∷ stored ∷ [];
  head = 15;
  count = 1;
}

server-IsRing : IsRing server
server-IsRing = record { slots = refl; head = omega arith; count = omega arith }

udp_server_enqueue-push_example :
    (s' : Server) × (udp_server_enqueue server peer 4001 (68 ∷ []) no_tasks
      ≡ some
          (s', if ltb (length (messages server)) 16 then scheduler_wake 7 no_tasks else no_tasks))
    × IsRing s'
    × (s'.port ≡ 7)
    × (messages s'
        ≡ push (record { src_ip = peer; src_port = 4001; payload = 68 ∷ [] }) (messages server))
udp_server_enqueue-push_example =
    udp_server_enqueue-push server server-IsRing peer 4001 (68 ∷ []) no_tasks (omega arith)

abbrev slots : List (Option Server)
slots = some (new_server 5) ∷ some server ∷ none ∷ none ∷ []

udp_server_recv-Answer_example : Answer 7 2 slots (messages server)
unfolding udp_find_server
udp_server_recv-Answer_example = udp_server_recv-Answer 7 2 slots server refl server-IsRing

recv_is_cut :
    (s : List (Option Server)) × (udp_server_recv 7 2 slots
      ≡ some (s, record { src_ip = peer; src_port = 4000; payload = 65 ∷ 66 ∷ [] }))
unfolding udp_server_recv
recv_is_cut = (_, refl)

udp_server_bind-Bound_example :
    ((udp_server_bind 9 slots ≡ none) × (udp_find_server 9 slots ≡ none) × All Taken slots)
    ⊎ ((slots' : List (Option Server)) × (udp_server_bind 9 slots ≡ some slots')
        × Bound 9 slots slots')
udp_server_bind-Bound_example = udp_server_bind-Bound 9 slots

abbrev task : ℕ → TaskState → ℕ → Tcb
task pid state wait_obj = record {
  addr = 0x1000 + pid;
  esp = 0x8000 + pid;
  state = state;
  pid = pid;
  stack_base = 0;
  cr3 = 0x2000 + pid;
  tty = 0;
  wait_obj = wait_obj;
  exit_code = 0;
}

-- Task 8 waits for task 7.
abbrev waiting : Scheduler
waiting = record {
  ring = task 7 running 0 ∷ task 8 blocked 7 ∷ task 0 ready 0 ∷ [];
  idle_task = 0x1000;
  next_pid = 9;
  cr3 = 0x2007;
}

udp_server_enqueue-Early_example :
    (server' : Server) × (s' : Scheduler) × (udp_server_enqueue server peer 4001 (68 ∷ []) waiting
      ≡ some (server', s'))
    × Early (task 8 blocked 7) (task 7 running 0) s'
udp_server_enqueue-Early_example =
    udp_server_enqueue-Early server peer 4001 (68 ∷ []) waiting (task 8 blocked 7)
      (task 7 running 0) server-IsRing (omega arith) (omega arith)
      ((omega arith, (omega arith, tt)), ((omega arith, tt), (tt, tt))) (omega arith)
      (inr (inl refl)) (inl refl) refl refl refl (omega arith) (omega arith) refl
