-- ===== src/Windows/Mapping/Flags.antt =====
-- The flags that a mapping of src/os_impl/windows.rs remembers.
use mmap_rs.Common.{ℕ, ◌^◌}

abbrev pub copy_on_write : ℕ
copy_on_write = 2 ^ 0

abbrev pub jit : ℕ
jit = 2 ^ 1
