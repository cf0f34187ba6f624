-- ===== src/Flags/UnsafeMmapFlags.antt =====
-- `UnsafeMmapFlags` of src/mmap.rs: the options that are unsafe to use. A value is its bits.
use mmap_rs.Common.{ℕ, ◌^◌}

abbrev pub map_fixed : ℕ
map_fixed = 2 ^ 0

abbrev pub jit : ℕ
jit = 2 ^ 1
