-- ===== src/Handles/Driver.antt =====
-- The driver that fat16_init registers, and the functions of stage2/vfs.c on a handle with it.
use mboot.Prelude.{ℕ, ◌≡◌, refl, Option, none, some, List, if-All, ℤ, pos, negsuc}
use mboot.Net.Socket.{
  Socket, socket_index_from_handle, socket_from_handle, socket_handle_valid, socket_dup,
  socket_close,
}
use mboot.Vfs.Backends.{
  Backends, Driver, is_device, with_sockets, file_close, dup_handle, exit_handle,
}
use mboot.Fat16.Files.{Fat16, fat16_dup, fat16_close}

abbrev pub fat16_driver : Driver Fat16
fat16_driver = record {
  close_file = some fat16_close;
  dup_file = some (λ handle st. (fat16_dup handle st).1);
}

with_sockets-disk :
    (st : Backends Fat16) (o : Option (List Socket)) → (with_sockets st o).1.disk ≡ st.disk
with_sockets-disk st none = refl
with_sockets-disk st (some sockets) = refl

-- Only a file's handle reaches the disk.
pub dup_handle-disk :
    (h : ℤ) (st : Backends Fat16)
    → (dup_handle (some fat16_driver) h st).disk ≡ (fat16_dup h st.disk).1
unfolding dup_handle socket_handle_valid socket_from_handle socket_index_from_handle fat16_dup
dup_handle-disk (pos n) st = refl
dup_handle-disk (negsuc n) st =
    if-All (λ (b : Backends Fat16). b.disk ≡ st.disk) (socket_handle_valid (negsuc n) st.sockets)
      (λ e. with_sockets-disk st (socket_dup (negsuc n) st.sockets))
      (λ e.
        if-All (λ (b : Backends Fat16). b.disk ≡ st.disk) (is_device (negsuc n)) (λ k. refl)
          (λ k. refl))

pub exit_handle-disk :
    (h : ℤ) (st : Backends Fat16) → (exit_handle fat16_close h st).disk ≡ (fat16_close h st.disk).1
unfolding exit_handle socket_handle_valid socket_from_handle socket_index_from_handle fat16_close
exit_handle-disk (pos n) st = refl
exit_handle-disk (negsuc n) st =
    if-All (λ (b : Backends Fat16). b.disk ≡ st.disk) (socket_handle_valid (negsuc n) st.sockets)
      (λ e. with_sockets-disk st (socket_close (negsuc n) st.sockets))
      (λ e.
        if-All (λ (b : Backends Fat16). b.disk ≡ st.disk) (is_device (negsuc n)) (λ k. refl)
          (λ k. refl))

pub file_close-disk :
    (h : ℤ) (st : Backends Fat16)
    → (file_close (some fat16_driver) h st).1.disk ≡ (fat16_close h st.disk).1
unfolding file_close socket_handle_valid socket_from_handle socket_index_from_handle fat16_close
file_close-disk (pos n) st = refl
file_close-disk (negsuc n) st =
    if-All (λ (r : ℤ × Backends Fat16). r.1.disk ≡ st.disk)
      (socket_handle_valid (negsuc n) st.sockets)
      (λ e. with_sockets-disk st (socket_close (negsuc n) st.sockets))
      (λ e.
        if-All (λ (r : ℤ × Backends Fat16). r.1.disk ≡ st.disk) (is_device (negsuc n)) (λ k. refl)
          (λ k. refl))

pub file_close-result :
    (n : ℕ) (st : Backends Fat16)
    → (file_close (some fat16_driver) (pos n) st).0 ≡ (fat16_close (pos n) st.disk).0
unfolding file_close socket_handle_valid socket_from_handle socket_index_from_handle
file_close-result n st = refl
