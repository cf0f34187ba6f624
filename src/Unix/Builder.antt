-- ===== src/Unix/Builder.antt =====
-- The builder of src/os_impl/unix.rs under the builder of src/mmap.rs.
pub mod Examples
use mmap_rs.Common.{ℕ, none, List}
use mmap_rs.Mmap.Options as Wrapper
use mmap_rs.Mmap.Options.{MmapOptions}
use mmap_rs.Mmap.Options.Order
use mmap_rs.Mmap.Options.Order.{
  Setting, asked_address, asked_file, asked_flags, asked_unsafe_flags, asked_page_size, last_of,
}
use mmap_rs.Unix.Platform.{Platform}
use mmap_rs.Unix.Options
use mmap_rs.Unix.Options.{flags}
use mmap_rs.Unix.Backend.{unix}

-- The options that a sequence of calls asks for.
abbrev pub unix_built : (p : Platform) → ℕ → List (Setting (unix p)) → Options.MmapOptions
unix_built p size xs = record {
  address = last_of (asked_address (unix p)) xs none;
  file = last_of (asked_file (unix p)) xs none;
  size = size;
  flags = last_of (asked_flags (unix p)) xs 0;
  unsafe_flags = last_of (asked_unsafe_flags (unix p)) xs 0;
  page_size = last_of (asked_page_size (unix p)) xs none;
}
