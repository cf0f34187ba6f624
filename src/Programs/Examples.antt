-- ===== src/Programs/Examples.antt =====
-- The theorems on the programs under examples/ at work on simulated systems.
use mmap_rs.Common.{map_option, ◌≡◌, refl, true, some, none, map, arith}
use mmap_rs.Bitflags.Native.{native_bitflags, native_bitflags-IsLawful}
use mmap_rs.Areas.{MemoryArea, shared, file_offset}
use mmap_rs.Linux.Combine.Direct.{direct, direct-IsCombine}
use mmap_rs.Linux.Number.{to_digit}
use mmap_rs.Linux.Line.{fits}
use mmap_rs.Linux.Line.Reads.{item_of}
use mmap_rs.Linux.Open.{maps_path, linux}
use mmap_rs.Linux.Open.Examples.{files, three}
use mmap_rs.Linux.Examples.{library-IsLine}
use mmap_rs.Unix.Platform.{linux as linux_os}
use mmap_rs.Unix.Map
use mmap_rs.Unix.Backend.{unix}
use mmap_rs.Unix.Simulated.{simulated-HasFlags, simulated-IsKernel, simulated-HasPages}
use mmap_rs.Unix.Examples.{tux, empty}
use mmap_rs.Programs.MapAnon
use mmap_rs.Programs.MapAnon.Cleans.{Cleans, options, main-Cleans}
use mmap_rs.Programs.ListAreas
use mmap_rs.Programs.ListAreas.Prints.{printed}
use mmap_rs.Programs.ListAreas.OnLinux.{main-printed}
use mmap_rs.Programs.ListAreas.Rows.{ReadsBack, Fits, row-ReadsBack}

main-Cleans_example :
    Cleans tux
      (simulated-IsKernel linux_os true)
      empty
      (Map.map_mut tux
        (options tux
          (simulated-IsKernel linux_os true)
          (simulated-HasFlags linux_os true)
          (simulated-HasPages linux_os true)
          empty)
        empty)
      (MapAnon.main (unix tux) empty).1
main-Cleans_example =
    main-Cleans tux (simulated-IsKernel linux_os true) (simulated-HasFlags linux_os true)
      (simulated-HasPages linux_os true) empty

main-printed_example :
    map_option
      (λ r. r.0)
      (ListAreas.main (linux files native_bitflags direct 64) native_bitflags 64 4 tt)
    ≡ some (
        some (
          printed native_bitflags 64
            (map (item_of native_bitflags direct direct-IsCombine 64) three)))
unfolding fits to_digit maps_path
main-printed_example =
    main-printed files native_bitflags direct direct-IsCombine 64 4 tt {t = tt} three refl refl
      ((library-IsLine, refl), (tt, ((library-IsLine, refl), tt))) (omega arith)

abbrev page : MemoryArea
page = record {
  range = record { start = 4096; end = 8192 };
  protection = 3;
  share_mode = shared;
  path = none;
}

page-Fits : Fits native_bitflags direct direct-IsCombine 64 page
unfolding file_offset
page-Fits = record {
  start = omega arith;
  end = omega arith;
  offset = omega arith;
  width_pos = omega arith;
}

row-ReadsBack_example : ReadsBack native_bitflags direct direct-IsCombine 64 page
row-ReadsBack_example =
    row-ReadsBack native_bitflags direct direct-IsCombine 64 native_bitflags-IsLawful page page-Fits
