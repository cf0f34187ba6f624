-- ===== src/Unix/Builder/Examples.antt =====
-- The theorem on the builder of src/os_impl/unix.rs at work: the flags are set twice.
use mmap_rs.Common.{none, some, pos, List, [], ◌∷◌}
use mmap_rs.Flags.MmapFlags
use mmap_rs.Mmap.Options.Order.{Setting, address, file, flags}
use mmap_rs.Unix.Options.{MmapOptions, flags as options}
use mmap_rs.Unix.Backend.{unix}
use mmap_rs.Unix.Examples.{tux}

abbrev calls : List (Setting (unix tux))
calls =
    flags MmapFlags.stack
    ∷ address 65536
    ∷ flags MmapFlags.locked
    ∷ file (record { raw_fd = pos 3 }) 4096
    ∷ []

abbrev asked_for : MmapOptions
asked_for = record {
  address = some 65536;
  file = some (record { raw_fd = pos 3 }, 4096);
  size = 8192;
  flags = MmapFlags.locked;
  unsafe_flags = 0;
  page_size = none;
}
