-- ===== src/FreeBsd/Protection.antt =====
-- `KvmeProtection` of src/os_impl/freebsd.rs.
use mmap_rs.Common.{ℕ, ◌^◌}

abbrev pub read : ℕ
read = 2 ^ 0

abbrev pub write : ℕ
write = 2 ^ 1

abbrev pub execute : ℕ
execute = 2 ^ 2
