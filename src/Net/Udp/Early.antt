-- ===== src/Net/Udp/Early.antt =====
-- The wake-up of udp_server_enqueue in stage2/net/udp.c and the sleepers of scheduler_wait_pid in
-- stage2/scheduler.c: the port of the one and the pid of the other are the same kind of wait object.
use mboot.Prelude.{
  ℕ, ◌^◌, ◌≤◌, ◌<◌, ◌≡◌, ◌≢◌, ap, ◌∙◌, true, false, some, List, arith, length, ltb, lt→ltb,
  if◌then◌else◌,
}
use mboot.Scheduler.{Tcb, Scheduler, blocked, is_exited, scheduler_wake}
use mboot.Scheduler.Order.{Distinct}
use mboot.Scheduler.Running.{pids}
use mboot.Scheduler.Find.{In}
use mboot.Scheduler.Wait.{Early, scheduler_wake-Early}
use mboot.Net.Udp.{Ip, Server, udp_server_enqueue}
use mboot.Net.Udp.Ring.{messages, length-messages, IsRing, udp_server_enqueue-push}

-- A wait object stands for a pid, and also for the port of a UDP server. When there is an idle
-- task, all pids differ and a task sleeps on the pid of a live task, neither 0 nor negative, that
-- is the number of a server's port, a datagram of at most 1472 bytes, to that server with a ring
-- that is not full, makes the sleeper ready, and the end of its scheduler_wait_pid gives the exit
-- code of a task that has not exited.
pub udp_server_enqueue-Early :
    (server : Server) (src_ip : Ip) (src_port : ℕ) (bytes : List ℕ) (s : Scheduler) (w t : Tcb)
    → IsRing server
    → server.count < 16
    → length bytes ≤ 1472
    → Distinct (pids s.ring)
    → s.idle_task ≢ 0
    → In w s.ring
    → In t s.ring
    → w.state ≡ blocked
    → w.wait_obj ≡ t.pid
    → is_exited t.state ≡ false
    → t.pid ≢ 0
    → t.pid < 2 ^ 31
    → server.port ≡ t.pid
    → (server' : Server) × (s' : Scheduler) × (udp_server_enqueue server src_ip src_port bytes s
        ≡ some (server', s'))
      × Early w t s'
udp_server_enqueue-Early server src_ip src_port bytes s w t ring room fits d idle m n b o live pid
      small port =
    let (server', e, ring', same, pushed) =
      udp_server_enqueue-push server ring src_ip src_port bytes s fits in
    let free : ltb (length (messages server)) 16 ≡ true =
      lt→ltb (length (messages server)) 16 (omega (arith, length-messages server, room)) in
    (
      server',
      scheduler_wake t.pid s,
      e
          ∙ ap (λ c. some (server', if c then scheduler_wake server.port s else s)) free
          ∙ ap (λ p. some (server', scheduler_wake p s)) port,
      scheduler_wake-Early s w t d m n b o live pid idle small,
    )
