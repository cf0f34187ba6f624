-- ===== src/Unix/Examples.antt =====
-- The theorems on src/os_impl/unix.rs at work: a mapping of two pages on a simulated system.
use mmap_rs.Common.{◌*◌, ◌+◌, ◌-◌, ◌^◌, ◌≤◌, ◌≡◌, ◌≢◌, refl, true, false, none, some, arith, pos}
use mmap_rs.Error.{nix, err}
use mmap_rs.Backend.{Range}
use mmap_rs.Flags.MmapFlags
use mmap_rs.Flags.UnsafeMmapFlags
use mmap_rs.Flags.PageSize
use mmap_rs.Mmap.Handle.{Handle, mutable, immutable, to_exec, convert_to}
use mmap_rs.Mmap
use mmap_rs.Unix.Opened.{IsTyped, convert_to-IsTyped}
use mmap_rs.Mmap.Ownership.{request, Answers, convert_to-Answers}
use mmap_rs.Unix.Platform.{MapFlag, Platform, linux, map_locked, map_hugetlb}
use mmap_rs.Unix.Options.{File, MmapOptions, flags}
use mmap_rs.Unix.Options.Requested.{contains-flags}
use mmap_rs.Unix.Options.HugePages.{default_huge_pages}
use mmap_rs.Unix.Mapping
use mmap_rs.Unix.Mapping.{do_make, make_exec_mut, flush, flush_async, drop, flush_icache}
use mmap_rs.Unix.Map
use mmap_rs.Unix.Map.{advise, mmap_call, do_map, map_exec_mut, map_mut}
use mmap_rs.Unix.Map.Protection.{HasProt}
use mmap_rs.Unix.Backend.{unix}
use mmap_rs.Unix.Simulated.{
  Memory, map_bit, simulated, simulated-HasFlags, simulated-HasProtections, simulated-IsKernel,
}
use mmap_rs.Unix.Failure.{do_map-leaks}
use mmap_rs.Unix.Ranges.{
  synced, flush-inside, flush_reversed, mapped_from, mapped_at, do_map-offset,
}
use mmap_rs.Unix.Typed.{convert_to-HasProt}

abbrev pub tux : Platform
tux = simulated linux true

-- A system on which `madvise` fails.
abbrev grumpy : Platform
grumpy = simulated linux false

abbrev pub empty : Memory
empty = record { next = 4096; prot = λ x. none }

abbrev pub two_pages : MmapOptions
two_pages = record {
  address = none;
  file = none;
  size = 8192;
  flags = MmapFlags.locked;
  unsafe_flags = 0;
  page_size = none;
}

abbrev for_jit : MmapOptions
for_jit = record two_pages { unsafe_flags = UnsafeMmapFlags.jit }

abbrev pub mapped : Mapping.Mmap
mapped = record { file = none; ptr = 4096; size = 8192; flags = 0 }

abbrev pub after_map : Memory
after_map = (map_mut tux two_pages empty).1

free_bit : (f : MapFlag) → map_bit f ≢ 26
free_bit f = ground arith

contains-flags_example : tux.contains (flags tux two_pages) (tux.map_flag map_locked) ≡ true
contains-flags_example = contains-flags tux (simulated-HasFlags linux true) two_pages map_locked

default_huge_pages_example :
    (tux.contains
        (flags tux (record two_pages { page_size = some PageSize._4k }))
        (tux.map_flag map_hugetlb)
      ≡ true)
    × (tux.contains (flags tux (record two_pages { page_size = some PageSize._4k })) (2 ^ 26)
        ≡ false)
default_huge_pages_example =
    default_huge_pages tux (simulated-HasFlags linux true)
      (record two_pages { page_size = some PageSize._4k }) PageSize._4k refl refl refl 26 free_bit

do_map-leaks_example :
    (do_map grumpy (record two_pages { flags = MmapFlags.no_core_dump }) 1 empty ≡ (
      err (nix 22),
      (mmap_call grumpy (record two_pages { flags = MmapFlags.no_core_dump }) 1 empty).1,
    ))
    × ((simulated-IsKernel linux false).prot_at
          (mmap_call grumpy (record two_pages { flags = MmapFlags.no_core_dump }) 1 empty).1
          5000
        ≡ some 1)
unfolding mmap_call advise Map.call_if
do_map-leaks_example =
    do_map-leaks grumpy (simulated-IsKernel linux false)
      (record two_pages { flags = MmapFlags.no_core_dump }) 1 empty {q = 4096} {e = nix 22} refl
      refl 5000 (omega arith) (omega arith)

abbrev first_page : Range
first_page = record { start = 0; end = 4096 }

abbrev reversed : Range
reversed = record { start = 4096; end = 0 }

flush-inside_example :
    (flush tux mapped first_page ≡ some (synced tux 4 4096 4096))
    × (flush_async tux mapped first_page ≡ some (synced tux 1 4096 4096))
    × (4096 + 0 + 4096 ≤ 4096 + 8192)
flush-inside_example = flush-inside tux mapped first_page (omega arith) (omega arith) (omega arith)

flush_reversed_example : flush tux mapped reversed ≡ some (synced tux 4 8192 (2 ^ 64 - 4096))
flush_reversed_example = flush_reversed tux mapped reversed (omega arith) (omega arith)

-- A system on which `off_t` has 32 bits.
abbrev narrow : Platform
narrow = record tux { target = record tux.target { off_width = 32 } }

abbrev on_disk : File
on_disk = record { raw_fd = pos 3 }

do_map-offset_example :
    (do_map narrow (mapped_from two_pages on_disk 4096) 1 empty
      ≡ mapped_at narrow two_pages on_disk 1 (pos 4096) empty)
    × (do_map narrow (mapped_from two_pages on_disk (4096 + 1 * 2 ^ 32)) 1 empty
        ≡ mapped_at narrow two_pages on_disk 1 (pos 4096) empty)
do_map-offset_example =
    do_map-offset narrow two_pages on_disk 1 4096 1 (omega arith) (omega arith) empty

abbrev handle : Handle (unix tux)
handle = mutable (record { inner = mapped })

convert_to-HasProt_example :
    HasProt tux
      (simulated-IsKernel linux true)
      (convert_to (unix tux) to_exec handle after_map).1
      mapped
      5
unfolding convert_to Mmap.make_exec Mapping.make_exec do_make flush_icache map_mut do_map mmap_call
    advise Map.call_if
convert_to-HasProt_example =
    convert_to-HasProt tux (simulated-IsKernel linux true) handle after_map
      {h' = immutable (record { inner = mapped })}
      {t = (convert_to (unix tux) to_exec handle after_map).1} to_exec refl

-- The mapping is gone: the system refuses, and the old value comes back.
abbrev gone : Memory
gone = (tux.munmap 4096 8192 after_map).1

convert_to-Answers_example :
    Answers
      (unix tux)
      handle
      (request (unix tux) to_exec mapped gone)
      (convert_to (unix tux) to_exec handle gone)
convert_to-Answers_example = convert_to-Answers (unix tux) handle to_exec gone

convert_to-IsTyped_example :
    IsTyped tux
      (simulated-IsKernel linux true)
      (convert_to (unix tux) to_exec handle after_map).1
      (immutable (record { inner = mapped }))
unfolding convert_to Mmap.make_exec Mapping.make_exec do_make flush_icache map_mut do_map mmap_call
    advise Map.call_if
convert_to-IsTyped_example =
    convert_to-IsTyped tux (simulated-HasProtections linux true) (simulated-IsKernel linux true)
      to_exec handle after_map {h' = immutable (record { inner = mapped })}
      {t = (convert_to (unix tux) to_exec handle after_map).1} refl
