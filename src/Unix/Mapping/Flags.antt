-- ===== src/Unix/Mapping/Flags.antt =====
-- The private `Flags` of src/os_impl/unix.rs, which a mapping remembers.
use mmap_rs.Common.{ℕ, ◌^◌}

abbrev pub jit : ℕ
jit = 2 ^ 0
