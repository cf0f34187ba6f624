-- ===== src/Windows/Builder/Examples.antt =====
-- The theorem on the builder of src/os_impl/windows.rs at work: the flags are set twice.
use mmap_rs.Common.{◌≡◌, none, some, List, [], ◌∷◌}
use mmap_rs.Flags.MmapFlags
use mmap_rs.Mmap.Options.{new}
use mmap_rs.Mmap.Options.Order.{Setting, address, file, flags, call_all, last_of}
use mmap_rs.Windows.Options.{MmapOptions}
use mmap_rs.Windows.Backend.{windows}
use mmap_rs.Windows.Builder.{call_all-windows_built}
use mmap_rs.Windows.Simulated.{simulated}

abbrev calls : List (Setting (windows simulated))
calls =
    flags MmapFlags.stack
    ∷ address 65536
    ∷ flags MmapFlags.locked
    ∷ file (record { raw_handle = 12 }) 4096
    ∷ []

abbrev asked_for : MmapOptions
asked_for = record {
  address = some 65536;
  file = some (record { raw_handle = 12 }, 4096);
  size = 8192;
  flags = MmapFlags.locked;
  unsafe_flags = 0;
  page_size = none;
}

call_all-windows_built_example :
    (call_all (windows simulated) calls (new (windows simulated) 8192)).inner ≡ asked_for
unfolding last_of
call_all-windows_built_example = call_all-windows_built simulated 8192 calls
