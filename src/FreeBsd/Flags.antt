-- ===== src/FreeBsd/Flags.antt =====
-- `KvmeFlags` of src/os_impl/freebsd.rs: the one flag that the iterator reads.
use mmap_rs.Common.{ℕ, ◌^◌}

abbrev pub cow : ℕ
cow = 2 ^ 0
