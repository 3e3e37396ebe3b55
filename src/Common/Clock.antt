-- ===== src/Common/Clock.antt =====
-- Units of time. A reading of the clock is a number of nanoseconds.
use Prim.Native.Nat.{ℕ, ◌*◌, ◌/◌}

-- `UnixMilli` of a reading, and `time.UnixMilli` back.
abbrev pub milli : ℕ → ℕ
milli t = t / 1_000_000

abbrev pub from_milli : ℕ → ℕ
from_milli ms = ms * 1_000_000
