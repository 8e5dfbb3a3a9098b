-- ===== src/Base/Time.antt =====
-- Durations in nanoseconds.
use Prim.Native.Nat.{ℕ, ◌*◌}

abbrev pub second : ℕ
second = 1_000_000_000

abbrev pub minute : ℕ
minute = 60 * second

abbrev pub hour : ℕ
hour = 60 * minute
