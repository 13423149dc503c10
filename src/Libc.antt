-- ===== src/Libc.antt =====
-- The C library of the user programs, user/src/libc.c.
pub mod Division
pub mod Numbers
