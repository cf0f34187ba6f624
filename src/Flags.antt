-- ===== src/Flags.antt =====
-- The flags and page sizes of src/mmap.rs, each bit as the source writes it.
pub mod MmapFlags
pub mod UnsafeMmapFlags
pub mod PageSize
