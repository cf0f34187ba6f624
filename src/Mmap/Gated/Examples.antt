-- ===== src/Mmap/Gated/Examples.antt =====
-- The theorem on the flag `JIT` of src/mmap.rs at work, over src/os_impl/unix.rs and
-- src/os_impl/windows.rs: a mapping is made to write, without the flag, and on Unix it is executable
-- by the time that it is asked to be both.
use mmap_rs.Common.{◌≡◌, ◌↔◌, refl, false}
use mmap_rs.Error.{ok, err}
use mmap_rs.Bitflags.Native.{native_bitflags-IsLawful}
use mmap_rs.Backend.{Backend}
use mmap_rs.Mmap
use mmap_rs.Mmap.Options as Wrapper
use mmap_rs.Mmap.Options.{MmapOptions}
use mmap_rs.Mmap.Handle.{Handle, mutable, to_exec, to_exec_mut, convert_to}
use mmap_rs.Mmap.Gated.{needs_jit, Later, same, converted, opened-refuses}
use mmap_rs.Unix.Mapping
use mmap_rs.Unix.Mapping.{do_make, flush_icache}
use mmap_rs.Unix.Map
use mmap_rs.Unix.Map.{advise, mmap_call}
use mmap_rs.Unix.Map.Protection
use mmap_rs.Unix.Opened.{open_as}
use mmap_rs.Unix.Backend.{unix}
use mmap_rs.Unix.Gated.{unix-IsGated}
use mmap_rs.Unix.Examples as Unix
use mmap_rs.Unix.Examples.{tux}
use mmap_rs.Unix.Handles.Examples.{wrapped, first, code}
use mmap_rs.Windows.Map as WindowsMap
use mmap_rs.Windows.Map.{
  finish, obtain, map_file, view_narrowed, non_null, check_protection, widest,
}
use mmap_rs.Windows.Backend.{windows}
use mmap_rs.Windows.Gated.{windows-IsGated}
use mmap_rs.Windows.Simulated.{simulated}
use mmap_rs.Windows.Examples as Windows

abbrev of_file : MmapOptions (windows simulated)
of_file = record { inner = Windows.of_file }

abbrev view : Handle (windows simulated)
view = mutable (record { inner = Windows.mapped })

abbrev Refused : (b : Backend) → MmapOptions b → Handle b → b.State → Type 0
Refused b o h s =
    ((open_as b Protection.exec_mutable o s ≡ (err needs_jit, s)) ↔ (false ≡ false))
    × ((convert_to b to_exec_mut h s ≡ (err (h, needs_jit), s)) ↔ (false ≡ false))

first-opened : open_as (unix tux) Protection.mutable wrapped Unix.empty ≡ (ok first, Unix.after_map)
unfolding open_as Wrapper.map_mut Map.map_mut Map.do_map mmap_call advise Map.call_if
first-opened = refl

code-Later : Later (unix tux) first code
unfolding convert_to Mmap.make_exec Mapping.make_exec do_make flush_icache Map.map_mut Map.do_map
    mmap_call advise Map.call_if
code-Later =
    converted to_exec Unix.after_map (convert_to (unix tux) to_exec first Unix.after_map).1 same
      refl

view-opened :
    open_as (windows simulated) Protection.mutable of_file Windows.empty
    ≡ (ok view, Windows.after_map)
unfolding open_as Wrapper.map_mut WindowsMap.map_mut WindowsMap.do_map finish obtain map_file
    view_narrowed non_null check_protection widest
view-opened = refl

opened-refuses_example :
    Refused (unix tux) wrapped code Unix.empty
    × Refused (windows simulated) of_file view Windows.empty
unfolding unix-IsGated windows-IsGated
opened-refuses_example = (
  opened-refuses (unix tux) (unix-IsGated tux native_bitflags-IsLawful) Protection.mutable wrapped
      Unix.empty {h = first} {g = code} {t = Unix.after_map} first-opened code-Later Unix.empty,
  opened-refuses (windows simulated) (windows-IsGated simulated native_bitflags-IsLawful)
      Protection.mutable of_file Windows.empty {h = view} {g = view} {t = Windows.after_map}
      view-opened same Windows.empty,
)
