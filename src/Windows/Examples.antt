-- ===== src/Windows/Examples.antt =====
-- The theorems on src/os_impl/windows.rs at work on a simulated system.
use mmap_rs.Common.{true, ◌==◌, ◌≡◌, ◌↔◌, refl, false, none, some, arith, ltb, if◌then◌else◌}
use mmap_rs.Error.{ok, err, unsafe_flag_needed}
use mmap_rs.Backend.{Range}
use mmap_rs.Bitflags.Native.{native_bitflags, native_bitflags-IsLawful}
use mmap_rs.Flags.MmapFlags
use mmap_rs.Flags.UnsafeMmapFlags
use mmap_rs.Unix.Map.Protection.{mutable, exec}
use mmap_rs.Windows.Mapping
use mmap_rs.Windows.Mapping.{Mmap, do_make, flush, flush_async, sync, drop, make_exec_mut}
use mmap_rs.Windows.Options.{MmapOptions}
use mmap_rs.Windows.Map
use mmap_rs.Windows.Map.{
  do_map, finish, obtain, map_file, view_narrowed, non_null, check_protection, widest, map_exec_mut,
}
use mmap_rs.Windows.Protection.{HasProtect}
use mmap_rs.Windows.Access.{
  map_as, make_as, map_as-HasProtect, make_as-HasProtect, make_read_only-writable, drop-keeps,
}
use mmap_rs.Windows.Handles.{do_map-handles}
use mmap_rs.Windows.Jit.{exec_mut-refuses}
use mmap_rs.Windows.Simulated.{
  Memory, simulated, simulated-IsKernel, simulated-HasHandles, windows_constants,
}
use mmap_rs.Windows.Areas.{Process, protection_of}
use mmap_rs.Windows.Areas.Access.{
  Page, no_access, readonly, readwrite, writecopy, execute, execute_read, execute_readwrite,
  execute_writecopy, index, page_of, HasPages, protection_of-access,
}
use mmap_rs.Areas.Protection

abbrev pub empty : Memory
empty = record { next = 65536; handles = 0; protect = λ x. none }

-- A file that is copied on write.
abbrev pub of_file : MmapOptions
of_file = record {
  address = none;
  file = some (record { raw_handle = 12 }, 0);
  size = 8192;
  flags = MmapFlags.copy_on_write;
  unsafe_flags = 0;
  page_size = none;
}

abbrev pub mapped : Mmap
mapped = record {
  file = some (record { raw_handle = 12 });
  ptr = 65536;
  size = 8192;
  flags = Mapping.Flags.copy_on_write;
}

abbrev anonymous : Mmap
anonymous = record { file = none; ptr = 65536; size = 8192; flags = 0 }

abbrev pub after_map : Memory
after_map = (map_as simulated mutable of_file empty).1

map_as-HasProtect_example : HasProtect simulated simulated-IsKernel after_map mapped 8
unfolding Map.map_mut do_map finish obtain map_file view_narrowed non_null check_protection widest
map_as-HasProtect_example =
    map_as-HasProtect simulated simulated-IsKernel mutable of_file empty {m = mapped}
      {t = after_map} refl

make_as-HasProtect_example :
    HasProtect simulated simulated-IsKernel
      (make_as simulated exec anonymous empty).1
      anonymous
      0x20
unfolding Mapping.make_exec do_make
make_as-HasProtect_example =
    make_as-HasProtect simulated simulated-IsKernel exec anonymous empty
      {t = (make_as simulated exec anonymous empty).1} refl (λ e. cc)

abbrev read_only : Memory
read_only = (Mapping.make_read_only simulated anonymous empty).1

make_read_only-writable_example :
    HasProtect simulated simulated-IsKernel read_only anonymous 4
    × (Mapping.make_mut simulated anonymous empty ≡ (ok tt, read_only))
unfolding Mapping.make_read_only do_make
make_read_only-writable_example =
    make_read_only-writable simulated simulated-IsKernel anonymous empty {t = read_only} refl refl

drop-keeps_example :
    simulated-IsKernel.protect_at (drop simulated anonymous read_only) 65536
    ≡ simulated-IsKernel.protect_at read_only 65536
drop-keeps_example =
    drop-keeps simulated simulated-IsKernel anonymous read_only refl (omega arith) 65536

do_map-handles_example :
    simulated-HasHandles.handles (do_map simulated of_file 2 empty).1
    ≡ simulated-HasHandles.handles empty
do_map-handles_example = do_map-handles simulated simulated-HasHandles of_file 2 empty

exec_mut-refuses_example :
    ((map_exec_mut simulated of_file empty ≡ (err (unsafe_flag_needed UnsafeMmapFlags.jit), empty))
      ↔ (false ≡ false))
    × ((make_exec_mut simulated mapped empty
          ≡ (err (unsafe_flag_needed UnsafeMmapFlags.jit), empty))
        ↔ (false ≡ false))
exec_mut-refuses_example = exec_mut-refuses simulated of_file mapped empty

abbrev reversed : Range
reversed = record { start = 4096; end = 0 }

abbrev first_page : Range
first_page = record { start = 0; end = 4096 }

-- One page that is committed, behind one that is not.
abbrev pub pages : Process
pages = record {
  width = 16;
  bitflags = native_bitflags;
  constants = windows_constants;
  virtual_query = λ a.
      if ltb a 4096
      then some (record {
        base_address = 0;
        allocation_base = 0;
        region_size = 4096;
        state = 0x10000;
        protect = 1;
        type = 0;
      })
      else if ltb a 8192
      then some (record {
        base_address = 4096;
        allocation_base = 4096;
        region_size = 4096;
        state = 0x1000;
        protect = 2;
        type = 0x20000;
      })
      else none;
  mapped_file_name = λ a. none;
}

same_index : (k l : Page) → (page_of pages k == page_of pages l) ≡ (index k == index l)
same_index no_access no_access = refl
same_index no_access _ = refl
same_index readonly no_access = refl
same_index readonly _ = refl
same_index readwrite no_access = refl
same_index readwrite _ = refl
same_index writecopy no_access = refl
same_index writecopy _ = refl
same_index execute no_access = refl
same_index execute _ = refl
same_index execute_read no_access = refl
same_index execute_read _ = refl
same_index execute_readwrite no_access = refl
same_index execute_readwrite _ = refl
same_index execute_writecopy no_access = refl
same_index execute_writecopy _ = refl

pages-HasPages : HasPages pages
pages-HasPages = record { page_of-index = same_index; bits = native_bitflags-IsLawful }

protection_of-access_example :
    (native_bitflags.contains (protection_of pages 0x80) Protection.read ≡ true)
    × (native_bitflags.contains (protection_of pages 0x80) Protection.write ≡ true)
    × (native_bitflags.contains (protection_of pages 0x80) Protection.execute ≡ true)
protection_of-access_example = protection_of-access pages pages-HasPages execute_writecopy
