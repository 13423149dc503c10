-- ===== src/Net/Socket.antt =====
-- The sockets of stage2/net/socket.c: their table, their handles and what they reference.
--
-- A pointer to a socket is its place in the table. A socket's `refs` counts the descriptors that hold
-- its handle, which are too few for the int to overflow.
use mboot.Prelude.{
  ℕ, ◌+◌, ◌-◌, ◌%◌, ◌^◌, Bool, true, false, ◌&&◌, ◌||◌, not, Option, none, some, List, [], ◌∷◌,
  ◌==◌, ltb, leb, if◌then◌else◌, get_or, set, replicate, ℤ, pos, negsuc,
}
use mboot.Net.Udp.{Ip}

abbrev pub socket_max : ℕ
socket_max = 16

abbrev pub socket_buf_size : ℕ
socket_buf_size = 1472

abbrev pub socket_out_size : ℕ
socket_out_size = 2048

-- `socket_t`
pub record Socket : Type 0 where
  pub used : Bool
  pub refs : ℕ
  pub domain : ℕ
  pub kind : ℕ
  pub protocol : ℕ
  pub local_port : ℕ
  pub bound : Bool
  pub is_raw : Bool
  pub icmp_identifier : ℕ
  pub icmp_sequence : ℕ
  pub has_peer : Bool
  pub peer_ip : Ip
  pub peer_port : ℕ
  pub inbuf : List ℕ
  pub in_len : ℕ
  pub in_pos : ℕ
  pub outbuf : List ℕ
  pub out_len : ℕ

-- What memset leaves in a buffer, and in a socket.
unfoldable pub zeroes : ℕ → List ℕ
zeroes n = replicate n 0

abbrev pub zeroed_socket : Socket
zeroed_socket = record {
  used = false;
  refs = 0;
  domain = 0;
  kind = 0;
  protocol = 0;
  local_port = 0;
  bound = false;
  is_raw = false;
  icmp_identifier = 0;
  icmp_sequence = 0;
  has_peer = false;
  peer_ip = record { byte0 = 0; byte1 = 0; byte2 = 0; byte3 = 0 };
  peer_port = 0;
  inbuf = zeroes socket_buf_size;
  in_len = 0;
  in_pos = 0;
  outbuf = zeroes socket_out_size;
  out_len = 0;
}

-- `SOCKET_HANDLE_BASE - handle`, with SOCKET_HANDLE_BASE -4096 and `negsuc n` the handle -n - 1.
unfoldable pub socket_index_from_handle : ℤ → Option ℕ
socket_index_from_handle (pos n) = none
socket_index_from_handle (negsuc n) =
    if ltb n 4095 || leb socket_max (n - 4095) then none else some (n - 4095)

unfoldable pub socket_handle_from_index : ℕ → ℤ
socket_handle_from_index index = negsuc (4095 + index)

abbrev pub socket_at : List Socket → ℕ → Socket
socket_at sockets i = get_or sockets i zeroed_socket

-- The socket at an index, when there is one in use.
abbrev pub used_socket : List Socket → Option ℕ → Option ℕ
used_socket sockets none = none
used_socket sockets (some i) = if (socket_at sockets i).used then some i else none

unfoldable pub socket_from_handle : ℤ → List Socket → Option ℕ
socket_from_handle handle sockets = used_socket sockets (socket_index_from_handle handle)

-- `!= NULL`
abbrev pub is_found : Option ℕ → Bool
is_found none = false
is_found (some i) = true

unfoldable pub socket_handle_valid : ℤ → List Socket → Bool
socket_handle_valid handle sockets = is_found (socket_from_handle handle sockets)

abbrev pub af_inet : ℕ
af_inet = 2

abbrev pub sock_dgram : ℕ
sock_dgram = 2

abbrev pub sock_raw : ℕ
sock_raw = 3

abbrev pub ipproto_icmp : ℕ
ipproto_icmp = 1

-- The first place, of those from i on, that is not in use.
unfoldable pub free_socket : ℕ → List Socket → Option ℕ
free_socket i [] = none
free_socket i (s ∷ sockets) =
    let rest = free_socket (i + 1) sockets in if s.used then rest else some i

abbrev pub new_socket : (domain kind protocol i : ℕ) → Socket
new_socket domain kind protocol i = record zeroed_socket {
  used = true;
  refs = 1;
  domain = domain;
  kind = kind;
  protocol = protocol;
  is_raw = kind == sock_raw;
  icmp_identifier = if kind == sock_raw then (0x1000 + i) % 2 ^ 16 else 0;
  icmp_sequence = if kind == sock_raw then 1 else 0;
}

abbrev pub placed : (domain kind protocol : ℕ) → List Socket → Option ℕ → Option (ℤ × List Socket)
placed domain kind protocol sockets none = none
placed domain kind protocol sockets (some i) =
    some (socket_handle_from_index i, set sockets i (new_socket domain kind protocol i))

-- Errors -1 are `none` here and below.
unfoldable pub socket_create : (domain kind protocol : ℕ) → List Socket → Option (ℤ × List Socket)
socket_create domain kind protocol sockets =
    if not (domain == af_inet)
    then none
    else if (kind == sock_dgram) && not (protocol == 0)
    then none
    else if (kind == sock_raw) && not (protocol == ipproto_icmp)
    then none
    else if not (kind == sock_dgram) && not (kind == sock_raw)
    then none
    else placed domain kind protocol sockets (free_socket 0 sockets)

abbrev pub changed : (Socket → Socket) → List Socket → Option ℕ → Option (List Socket)
changed f sockets none = none
changed f sockets (some i) = some (set sockets i (f (socket_at sockets i)))

unfoldable pub socket_dup : ℤ → List Socket → Option (List Socket)
socket_dup handle sockets =
    changed (λ (s : Socket). record s { refs = s.refs + 1 }) sockets
      (socket_from_handle handle sockets)

abbrev pub dropped : Socket → Socket
dropped s =
    let refs' = if ltb 0 s.refs then s.refs - 1 else s.refs in
    if refs' == 0 then zeroed_socket else record s { refs = refs' }

unfoldable pub socket_close : ℤ → List Socket → Option (List Socket)
socket_close handle sockets = changed dropped sockets (socket_from_handle handle sockets)
