-- ===== src/Common/Integers.antt =====
-- Signed integers over the native numbers, and the casts between machine words.
use Prim.Native.Nat.{ℕ, ◌-◌, ◌%◌, ◌^◌}
use mmap_rs.Common.Tests.{ltb, if◌then◌else◌}

-- `negsuc n` is -(n + 1).
pub data ℤ : Type 0 where
  pos : ℕ → ℤ
  negsuc : ℕ → ℤ

-- The integer that a word of `w` bits stands for in two's complement.
abbrev pub signed : ℕ → ℕ → ℤ
signed w n = if ltb n (2 ^ (w - 1)) then pos n else negsuc (2 ^ w - n - 1)

-- `n as iw` for an unsigned `n`: the low bits, read as a signed word.
abbrev pub as_signed : ℕ → ℕ → ℤ
as_signed w n = signed w (n % 2 ^ w)
