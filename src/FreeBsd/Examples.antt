-- ===== src/FreeBsd/Examples.antt =====
-- The theorems on src/os_impl/freebsd.rs at work: two entries, one with a path in a buffer of eight
-- bytes.
use mmap_rs.Common.{◌≡◌, ◌≢◌, refl, true, false, none, some, [], ◌∷◌, codes}
use mmap_rs.Error.{ok}
use mmap_rs.Bitflags.Native.{native_bitflags, native_bitflags-IsLawful}
use mmap_rs.Areas.{shared}
use mmap_rs.Areas.Protection as Area
use mmap_rs.FreeBsd.{Entry, MemoryAreas, area_of, item, last}
use mmap_rs.FreeBsd.Entries.{item-path, item-access}

abbrev pub heap : Entry
heap = record {
  kve_protection = 3;
  kve_flags = 0;
  kve_start = 4096;
  kve_end = 8192;
  kve_offset = 0;
  kve_path = 0 ∷ 0 ∷ 0 ∷ 0 ∷ 0 ∷ 0 ∷ 0 ∷ 0 ∷ [];
}

abbrev pub shell : Entry
shell = record heap {
  kve_protection = 5;
  kve_flags = 1;
  kve_path = b'/' ∷ b's' ∷ b'h' ∷ 0 ∷ 0 ∷ 0 ∷ 0 ∷ 0 ∷ [];
}

abbrev areas : MemoryAreas
areas = record { entries = heap ∷ shell ∷ []; index = 0 }

item-path_example :
    item native_bitflags 64 shell
    ≡ ok (area_of native_bitflags 64 shell (some (b'/' ∷ b's' ∷ b'h' ∷ 0 ∷ 0 ∷ 0 ∷ 0 ∷ 0 ∷ [], 0)))
item-path_example =
    item-path native_bitflags 64 shell (codes "/sh") 5
      (((λ e. cc), refl), (((λ e. cc), refl), (((λ e. cc), refl), tt))) refl

item-access_example :
    (native_bitflags.contains (area_of native_bitflags 64 heap none).protection Area.read ≡ true)
    × (native_bitflags.contains (area_of native_bitflags 64 heap none).protection Area.write ≡ true)
    × (native_bitflags.contains (area_of native_bitflags 64 heap none).protection Area.execute
        ≡ false)
    × ((area_of native_bitflags 64 heap none).share_mode ≢ shared)
unfolding item last
item-access_example =
    item-access native_bitflags 64 native_bitflags-IsLawful heap
      (area_of native_bitflags 64 heap none) refl
