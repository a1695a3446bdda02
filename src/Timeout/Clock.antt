-- ===== src/Timeout/Clock.antt =====
-- calc_timeout of the time operations (time-unix/unix-time.c) and the comparisons of
-- include/ppsi/jiffies.h, which are right across the wrap of `unsigned long`.
use ppsi.Ds.{Globals}
use ppsi.Prelude.{Bool, leb, ltb, to_word, ℕ, ℤ, ◌%◌, ◌+◌, ◌-◌, ◌^◌}

abbrev pub ulong_mod : ℕ
ulong_mod = 2 ^ 64

-- The clock reads `now` milliseconds, and `millisec` is converted to unsigned long and added.
unfoldable pub calc_timeout : Globals → ℤ → ℕ
calc_timeout g millisec = (g.now + to_word 64 millisec) % ulong_mod

-- (long)(b - a) < 0
unfoldable pub time_after : ℕ → ℕ → Bool
time_after a b = leb (2 ^ 63) ((b + ulong_mod - a) % ulong_mod)

unfoldable pub time_before : ℕ → ℕ → Bool
time_before a b = time_after b a

-- (long)(a - b) >= 0
unfoldable pub time_after_eq : ℕ → ℕ → Bool
time_after_eq a b = ltb ((a + ulong_mod - b) % ulong_mod) (2 ^ 63)

unfoldable pub time_before_eq : ℕ → ℕ → Bool
time_before_eq a b = time_after_eq b a
