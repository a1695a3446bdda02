-- ===== src/Time.antt =====
-- lib/time-arith.c: the arithmetic of struct pp_time.
pub mod Arith
pub mod Loops
pub mod Normal
pub mod Sums
pub mod Convert
pub mod Picos
