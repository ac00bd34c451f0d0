-- ===== src/Base/Int64.antt =====
-- An int64 and the 64 bits of its two's complement.
use youtube_webhook_ingestio.Base.Tests.{ltb, if◌then◌else◌, ℤ, pos, negsuc}
use Prim.Native.Nat.{ℕ, ◌-◌, ◌%◌, ◌^◌}

-- the 64 bits of a number, as a number
abbrev pub bits : ℤ → ℕ
bits (pos n) = n % 2 ^ 64
bits (negsuc n) = 2 ^ 64 - 1 - n % 2 ^ 64

-- the int64 of 64 bits: int64(x) of a uint64 x
abbrev pub from_bits : ℕ → ℤ
from_bits n = if ltb n (2 ^ 63) then pos n else negsuc (2 ^ 64 - 1 - n)
