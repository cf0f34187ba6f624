-- ===== src/Unix/Handles/Examples.antt =====
-- The theorems on the processes of src/mmap.rs over src/os_impl/unix.rs at work: a process that maps two
-- pages to write, maps two more, and makes the first ones executable, on a simulated system.
use mmap_rs.Common.{All, refl, true, [], ◌∷◌}
use mmap_rs.Mmap
use mmap_rs.Mmap.Handle.{Handle, immutable, mutable, to_exec, convert_to}
use mmap_rs.Mmap.Options as Wrapper
use mmap_rs.Mmap.Options.{MmapOptions as Wrapped}
use mmap_rs.Unix.Platform.{linux}
use mmap_rs.Unix.Mapping
use mmap_rs.Unix.Mapping.{do_make, flush_icache}
use mmap_rs.Unix.Map
use mmap_rs.Unix.Map.{advise, mmap_call, do_map, map_mut}
use mmap_rs.Unix.Map.Protection
use mmap_rs.Unix.Opened.{open_as}
use mmap_rs.Unix.Backend.{unix}
use mmap_rs.Unix.Handles.{Owner, start, Reach, here, next, opens, converts}
use mmap_rs.Unix.Handles.Usable.{Usable}
use mmap_rs.Unix.Handles.Safe.{Reach-Usable}
use mmap_rs.Unix.Simulated.{
  simulated-HasFlags, simulated-HasProtections, simulated-IsKernel, simulated-HasPages,
}
use mmap_rs.Unix.Process.Examples.{mapped_again}
use mmap_rs.Unix.Examples.{tux, empty, two_pages, mapped, after_map}

abbrev pub wrapped : Wrapped (unix tux)
wrapped = record { inner = two_pages }

abbrev pub first : Handle (unix tux)
first = mutable (record { inner = mapped })

abbrev second : Handle (unix tux)
second = mutable (record { inner = mapped_again })

abbrev pub code : Handle (unix tux)
code = immutable (record { inner = mapped })

abbrev after_second : tux.State
after_second = (map_mut tux two_pages after_map).1

abbrev compiled : Owner tux
compiled = record {
  os = (convert_to (unix tux) to_exec first after_second).1;
  owned = second ∷ code ∷ [];
}

compiled-Reach : Reach tux (start tux empty) compiled
unfolding open_as Wrapper.map_mut map_mut do_map mmap_call advise Map.call_if convert_to
    Mmap.make_exec Mapping.make_exec do_make flush_icache
compiled-Reach =
    next
      (next (next here (opens Protection.mutable wrapped first after_map refl refl))
        (opens Protection.mutable wrapped second after_second refl refl))
      (converts to_exec first code (second ∷ []) [] compiled.os refl refl)

Reach-Usable_example :
    All (Usable tux (simulated-IsKernel linux true) compiled.os) (second ∷ code ∷ [])
Reach-Usable_example =
    Reach-Usable tux (simulated-HasProtections linux true) (simulated-IsKernel linux true)
      (simulated-HasFlags linux true) (simulated-HasPages linux true) empty {v = compiled}
      compiled-Reach
