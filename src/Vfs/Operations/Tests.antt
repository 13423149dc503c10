-- ===== src/Vfs/Operations/Tests.antt =====
-- A task with a socket on its first descriptor, and no disk.
use mboot.Prelude.{
  ◌↔◌, ◌≤◌, ◌<◌, ℕ, zero, suc, ◌≡◌, refl, ap, ◌∙◌, some, List, [], ◌∷◌, ◌++◌, arith, if◌then◌else◌,
  get_or, replicate, ℤ, negsuc,
}
use mboot.Net.Socket.{Socket, zeroed_socket, new_socket, socket_create, socket_index_from_handle}
use mboot.Vfs.Backends.{
  udp_tty_handle_port, Backends, CpuinfoFile, closed_cpuinfo, cpuinfo_handle_id, empty_handle,
}
use mboot.Vfs.Fds.{vfs_attach_handle}
use mboot.Vfs.Refs.{Slot, socket, cpuinfo, refs_of, held}
use mboot.Vfs.Conserved.{IsCounted}
use mboot.Vfs.Overlap.{udp_tty_handle_port-socket}
use mboot.Vfs.Opening.{Created, Attached, socket_create-Created, vfs_attach_handle-Attached}

abbrev task_fds : List ℤ
task_fds = negsuc 4095 ∷ replicate 15 empty_handle

abbrev backends : Backends Unit
backends = record {
  sockets = new_socket 2 2 0 0 ∷ replicate 15 zeroed_socket;
  cpuinfo_files = replicate 4 closed_cpuinfo;
  disk = tt;
}

get_or-replicate {ℓ} : {A : Type ℓ} (n i : ℕ) (a : A) → get_or (replicate n a) i a ≡ a
get_or-replicate zero i a = refl
get_or-replicate (suc n) zero a = refl
get_or-replicate (suc n) (suc i) a = get_or-replicate n i a

backends-IsCounted : IsCounted (task_fds ++ []) backends
unfolding socket_index_from_handle cpuinfo_handle_id
backends-IsCounted = record {
  tables = record { sockets = refl; cpuinfo_files = refl };
  refs = counts;
}
  where
    counts : (s : Slot) → refs_of s backends ≡ held s (task_fds ++ [])
    counts (socket zero) = refl
    counts (socket (suc i)) =
        ap (λ (s : Socket). if s.used then s.refs else 0) (get_or-replicate 15 i zeroed_socket)
        ∙ ground arith
    counts (cpuinfo i) =
        ap (λ (f : CpuinfoFile). if f.used then f.refs else 0) (get_or-replicate 4 i closed_cpuinfo)
        ∙ refl

socket_create-Created_example :
    Created
      (task_fds ++ [])
      backends
      backends-IsCounted
      2
      3
      1
      (socket_create 2 3 1 backends.sockets)
socket_create-Created_example =
    socket_create-Created (task_fds ++ []) backends backends-IsCounted 2 3 1

vfs_attach_handle-Attached_example :
    Attached (negsuc 4096) task_fds (vfs_attach_handle (negsuc 4096) task_fds)
vfs_attach_handle-Attached_example = vfs_attach_handle-Attached (negsuc 4096) task_fds

udp_tty_handle_port-socket_example :
    ((i : ℕ) × (socket_index_from_handle (negsuc 4095) ≡ some i)) ↔ ((3072 ≤ 3072) × (3072 < 3088))
unfolding udp_tty_handle_port
udp_tty_handle_port-socket_example = udp_tty_handle_port-socket (negsuc 4095) 3072 refl
