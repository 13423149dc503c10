-- ===== src/Handles/Tests.antt =====
-- One task with an open file on its descriptor 3: what it duplicates, closes, gives a child and leaves
-- behind.
use mboot.Prelude.{
  ℕ, zero, suc, ◌≡◌, refl, ◌∙◌, true, List, [], ◌∷◌, ◌++◌, arith, some, get_or, replicate, ℤ, pos,
  negsuc, ap, if◌then◌else◌,
}
use mboot.Net.Socket.{Socket, zeroed_socket, new_socket, socket_index_from_handle}
use mboot.Vfs.Backends.{Backends, CpuinfoFile, closed_cpuinfo, empty_handle, cpuinfo_handle_id}
use mboot.Vfs.Fds.{vfs_close, vfs_dup2, vfs_fork_fds, vfs_exit_fds}
use mboot.Vfs.Refs.{Slot, socket, cpuinfo, refs_of, held}
use mboot.Handles.Rebinding.{Rebound}
use mboot.Handles.Backends.{
  IsBalanced, vfs_fork_fds-IsBalanced, vfs_dup2-IsBalanced, vfs_exit_fds-IsBalanced,
}
use mboot.Fat16.Disk.{Disk}
use mboot.Fat16.Files.{Fat16, zeroed_file}
use mboot.Handles.Counts.{file_held, file_refs, file_value}
use mboot.Handles.Driver.{fat16_driver}
use mboot.Handles.Steps.{System, dups, closes, here, next, IsAccounted, Steps-IsAccounted}

abbrev blank_disk : Disk
blank_disk a = 0

abbrev fds : List ℤ
fds = empty_handle ∷ empty_handle ∷ empty_handle ∷ pos 0 ∷ replicate 12 empty_handle

abbrev files : Fat16
files = record {
  bpb = record {
    byts_per_sec = 512;
    sec_per_clus = 4;
    rsvd_sec_cnt = 1;
    num_fats = 2;
    root_ent_cnt = 512;
    fatsz16 = 32;
  };
  part_offset = 512;
  open_files =
      record { path = []; start_cluster = 2; size = 6; offset = 0; used = true; refs = 1 }
      ∷ replicate 7 zeroed_file;
}

abbrev system : System
system = record {
  tables = fds ∷ [];
  backends = record {
    sockets = replicate 16 zeroed_socket;
    cpuinfo_files = replicate 4 closed_cpuinfo;
    disk = files;
  };
  devices = record { udp_ttys = []; servers = [] };
}

unused : (n i : ℕ) → file_value (get_or (replicate n zeroed_file) i zeroed_file) ≡ 0
unused zero i = refl
unused (suc n) zero = refl
unused (suc n) (suc i) = unused n i

system-IsAccounted : IsAccounted system
system-IsAccounted = record {
  tables = (refl, tt);
  room = omega arith;
  referenced = record { table = refl; refs = counts };
}
  where
    counts : (i : ℕ) → file_refs i files ≡ file_held i (fds ++ [])
    counts zero = refl
    counts (suc i) = unused 7 i ∙ ground arith

-- The same task, with a socket on its first descriptor as well.
abbrev mixed_fds : List ℤ
mixed_fds = negsuc 4095 ∷ empty_handle ∷ empty_handle ∷ pos 0 ∷ replicate 12 empty_handle

abbrev mixed : Backends Fat16
mixed = record {
  sockets = new_socket 2 2 0 0 ∷ replicate 15 zeroed_socket;
  cpuinfo_files = replicate 4 closed_cpuinfo;
  disk = files;
}

get_or-replicate {ℓ} : {A : Type ℓ} (n i : ℕ) (a : A) → get_or (replicate n a) i a ≡ a
get_or-replicate zero i a = refl
get_or-replicate (suc n) zero a = refl
get_or-replicate (suc n) (suc i) a = get_or-replicate n i a

mixed-IsBalanced : IsBalanced (mixed_fds ++ []) mixed
unfolding socket_index_from_handle cpuinfo_handle_id
mixed-IsBalanced = record {
  counted = record { tables = record { sockets = refl; cpuinfo_files = refl }; refs = counts };
  referenced = record { table = refl; refs = file_counts };
}
  where
    counts : (s : Slot) → refs_of s mixed ≡ held s (mixed_fds ++ [])
    counts (socket zero) = refl
    counts (socket (suc i)) =
        ap (λ (s : Socket). if s.used then s.refs else 0) (get_or-replicate 15 i zeroed_socket)
        ∙ ground arith
    counts (cpuinfo i) =
        ap (λ (f : CpuinfoFile). if f.used then f.refs else 0) (get_or-replicate 4 i closed_cpuinfo)
        ∙ refl

    file_counts : (i : ℕ) → file_refs i files ≡ file_held i (mixed_fds ++ [])
    file_counts zero = refl
    file_counts (suc i) = unused 7 i ∙ ground arith

vfs_fork_fds-IsBalanced_example :
    let r = vfs_fork_fds (some fat16_driver) mixed_fds mixed in
    (r.0 ≡ mixed_fds) × IsBalanced (r.0 ++ (mixed_fds ++ [])) r.1
vfs_fork_fds-IsBalanced_example =
    vfs_fork_fds-IsBalanced mixed_fds [] mixed (omega arith) mixed-IsBalanced

vfs_dup2-IsBalanced_example :
    let r = vfs_dup2 (some fat16_driver) 0 (pos 3) (pos 0) mixed_fds mixed in
    Rebound 0 mixed_fds mixed (pos 3) (pos 0) r × IsBalanced (r.1 ++ []) r.2
vfs_dup2-IsBalanced_example =
    vfs_dup2-IsBalanced [] mixed_fds mixed refl (omega arith) mixed-IsBalanced 0 (pos 3) (pos 0)

vfs_exit_fds-IsBalanced_example :
    let r = vfs_exit_fds (some fat16_driver) mixed_fds mixed in
    (r.0 ≡ replicate 16 empty_handle) × IsBalanced [] r.1
vfs_exit_fds-IsBalanced_example =
    vfs_exit_fds-IsBalanced mixed_fds [] mixed (omega arith) mixed-IsBalanced

abbrev doubled : ℤ × List ℤ × Backends Fat16
doubled = vfs_dup2 (some fat16_driver) 0 (pos 3) (pos 5) fds system.backends

abbrev dropped_first : ℤ × List ℤ × Backends Fat16
dropped_first = vfs_close (some fat16_driver) (pos 3) doubled.1 doubled.2

Steps-IsAccounted_example :
    IsAccounted (record system { tables = dropped_first.1 ∷ []; backends = dropped_first.2 })
Steps-IsAccounted_example = Steps-IsAccounted {disk = blank_disk} system-IsAccounted (
    next (next here (dups [] [] fds 0 (pos 3) (pos 5) doubled refl refl))
      (closes [] [] doubled.1 (pos 3) dropped_first refl refl))
