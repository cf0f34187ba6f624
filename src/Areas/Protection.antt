-- ===== src/Areas/Protection.antt =====
-- `Protection` of src/areas.rs: the permissions of a memory area. A value is its bits.
use mmap_rs.Common.{ℕ, ◌^◌}

abbrev pub read : ℕ
read = 2 ^ 0

abbrev pub write : ℕ
write = 2 ^ 1

abbrev pub execute : ℕ
execute = 2 ^ 3
