-- ===== src/Flags/MmapFlags.antt =====
-- `MmapFlags` of src/mmap.rs: the safe options of a mapping. A value is its bits.
use mmap_rs.Common.{ℕ, ◌^◌}

abbrev pub copy_on_write : ℕ
copy_on_write = 2 ^ 0

abbrev pub populate : ℕ
populate = 2 ^ 1

abbrev pub no_reserve : ℕ
no_reserve = 2 ^ 2

abbrev pub huge_pages : ℕ
huge_pages = 2 ^ 3

abbrev pub stack : ℕ
stack = 2 ^ 4

abbrev pub no_core_dump : ℕ
no_core_dump = 2 ^ 5

abbrev pub locked : ℕ
locked = 2 ^ 6
