-- ===== src/Vfs/Overlap.antt =====
-- The handles of stage2/vfs.c and of stage2/net/socket.c that coincide.
use mboot.Prelude.{
  ℕ, ◌-◌, ◌≤◌, ◌<◌, ◌≡◌, ap, ◌∙◌, sym, true, ◌||◌, none, some, if◌then◌else◌, arith, inl, inr, ◌↔◌,
  Bool-cases, leb, ltb, ℤ, pos, negsuc,
}
use mathlib.Core.Option.{some-injective}
use mboot.Net.Socket.{socket_index_from_handle}
use mboot.Vfs.Backends.{udp_tty_handle_port}

port-range :
    (n p : ℕ)
    → leb 1023 n ≡ true
    → n - 1023 ≡ p
    → ((i : ℕ) × (socket_index_from_handle (negsuc n) ≡ some i)) ↔ ((3072 ≤ p) × (p < 3088))
unfolding socket_index_from_handle
port-range n p big e = elim (Bool-cases (ltb n 4095 || leb 16 (n - 4095))) [
  | inl k ↦ (λ (i, f). ground (arith, f, k), λ (a, b). absurd (ground (arith, a, b, k, e, big)))
  | inr k ↦ (λ f. (ground (arith, k, e, big), ground (arith, k, e, big)), λ r. (n - 4095, rw k))
]

-- A handle of a UDP device is a socket's handle as well exactly when the port is one of 3072 to 3087.
pub udp_tty_handle_port-socket :
    (h : ℤ) (p : ℕ)
    → udp_tty_handle_port h ≡ some p
    → ((i : ℕ) × (socket_index_from_handle h ≡ some i)) ↔ ((3072 ≤ p) × (p < 3088))
unfolding udp_tty_handle_port
udp_tty_handle_port-socket (pos n) p e = ground (arith, e)
udp_tty_handle_port-socket (negsuc n) p e = elim (Bool-cases (leb 1023 n)) [
  | inl k ↦
      port-range n p k
        (some-injective (n - 1023) p (ap (λ b. if b then some (n - 1023) else none) (sym k) ∙ e))
  | inr k ↦ ground (arith, e, k)
]
