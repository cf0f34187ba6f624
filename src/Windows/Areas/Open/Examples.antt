-- ===== src/Windows/Areas/Open/Examples.antt =====
-- The theorems on `open` of src/os_impl/windows.rs at work: three processes, of which
-- one is the caller and one cannot be opened, with a free region and a committed one each.
use mmap_rs.Common.{
  ℕ, collect, refl, suc, ◌≡◌, ◌≢◌, ◌<◌, none, some, [], ◌∷◌, arith, ◌==◌, ◌+◌, ◌-◌, ◌^◌,
  if◌then◌else◌,
}
use mmap_rs.Error.{ok, err}
use mmap_rs.Bitflags.Native.{native_bitflags}
use mmap_rs.Areas.Platform.{MemoryAreas, open_areas, next as listed}
use mmap_rs.Windows.Simulated.{windows_constants}
use mmap_rs.Windows.Examples.{pages}
use mmap_rs.Windows.Areas.{Info, area_of, next}
use mmap_rs.Windows.Areas.Chain.{committed}
use mmap_rs.Windows.Areas.Open.{System, process_of, open_handle, HasRegions, windows_areas}
use mmap_rs.Windows.Areas.Open.Listed.{open_areas-committed}

-- The state is the number of open handles.
abbrev system : System
system = record {
  width = 16;
  bitflags = native_bitflags;
  constants = windows_constants;
  process_all_access = 0x1fffff;
  State = ℕ;
  open_process = λ access inherit id s. if id == 0 then (err 5, s) else (ok (id + 4), suc s);
  get_current_process = 2 ^ 64 - 1;
  virtual_query = λ h a. pages.virtual_query a;
  mapped_file_name = λ h a. none;
}

system-HasRegions : HasRegions system
unfolding process_of
system-HasRegions = λ handle. record { sized = λ a h. ground arith; inside = λ a h. ground arith }

abbrev free : Info
free = record {
  base_address = 0;
  allocation_base = 0;
  region_size = 4096;
  state = 0x10000;
  protect = 1;
  type = 0;
}

abbrev used : Info
used = record free {
  base_address = 4096;
  allocation_base = 4096;
  state = 0x1000;
  protect = 2;
  type = 0x20000;
}

abbrev listing : MemoryAreas (windows_areas system system-HasRegions)
listing = record { inner = record { handle = 44; address = 0 } }

open_areas-committed_example :
    ((a : ℕ) → next (process_of system 44) (suc (2 ^ 16)) a ≢ none)
    × ((fuel : ℕ)
        → 2 < fuel
        → collect (listed (windows_areas system system-HasRegions)) fuel listing
          ≡ ok (area_of (process_of system 44) 4096 used) ∷ [])
unfolding open_areas open_handle process_of committed
open_areas-committed_example =
    open_areas-committed system system-HasRegions (some 40) 0 {areas = listing} {t = 1}
      (free ∷ used ∷ []) refl (refl, (refl, refl))
