-- ===== src/Linux/Examples.antt =====
-- The theorems on src/os_impl/linux.rs at work: the line of a library, and one of a file on a disk
-- whose device number takes more than eight bits.
use mmap_rs.Common.{
  collect, ℕ, ◌≡◌, refl, Bool, true, false, some, List, [], ◌∷◌, codes, arith, if◌then◌else◌,
}
use mmap_rs.Error.{ok}
use mmap_rs.Bitflags.Native.{native_bitflags}
use mmap_rs.Linux.Combine.{is_hex_digit, is_whitespace, easy_parse}
use mmap_rs.Linux.Combine.Direct.{direct, direct-IsCombine}
use mmap_rs.Linux.Number.{to_digit}
use mmap_rs.Linux.Gives.{Passes, not_newline}
use mmap_rs.Linux.Region.{next, memory_region}
use mmap_rs.Linux.Line.{Line, IsLine, IsNumber, text, fits, area}
use mmap_rs.Linux.Line.Reads.{memory_region-reads, collect-stops}

-- 7f00a000-7f00b000 r-xp 00001000 fd:01 131 <padding> /lib/libc.so
abbrev pub library : Line
library = record {
  start = codes "7f00a000";
  end = codes "7f00b000";
  readable = true;
  writable = false;
  executable = true;
  is_shared = false;
  offset = codes "00001000";
  major = codes "fd";
  minor = codes "01";
  inode = codes "131";
  padding = codes "   ";
  path = codes "/lib/libc.so";
}

-- An NVMe disk has the major device number 0x103.
abbrev on_nvme : Line
on_nvme = record library { major = codes "103" }

every : (ℕ → Bool) → List ℕ → Bool
every test [] = true
every test (x ∷ s) = let rest = every test s in if test x then rest else false

every-Passes : (test : ℕ → Bool) (s : List ℕ) → every test s ≡ true → Passes test s
unfolding every
every-Passes test [] h = tt
every-Passes test (x ∷ s) h =
    let first : test x ≡ true = ground arith in (first, every-Passes test s (rw first at h))

every-IsNumber : (x : ℕ) (s : List ℕ) → every is_hex_digit (x ∷ s) ≡ true → IsNumber (x ∷ s)
every-IsNumber x s h = ((λ e. cc), every-Passes is_hex_digit (x ∷ s) h)

pub library-IsLine : IsLine library
unfolding every is_hex_digit is_whitespace
library-IsLine = record {
  start = every-IsNumber b'7' (codes "f00a000") refl;
  end = every-IsNumber b'7' (codes "f00b000") refl;
  offset = every-IsNumber b'0' (codes "0001000") refl;
  major = every-IsNumber b'f' (codes "d") refl;
  minor = every-IsNumber b'0' (codes "1") refl;
  inode = every-IsNumber b'1' (codes "31") refl;
  padding = every-Passes is_whitespace (codes "   ") refl;
  path = every-Passes not_newline (codes "/lib/libc.so") refl;
  path_start = refl;
}

on_nvme-IsLine : IsLine on_nvme
unfolding every is_hex_digit
on_nvme-IsLine = record {
  start = library-IsLine.start;
  end = library-IsLine.end;
  offset = library-IsLine.offset;
  major = every-IsNumber b'1' (codes "03") refl;
  minor = library-IsLine.minor;
  inode = library-IsLine.inode;
  padding = library-IsLine.padding;
  path = library-IsLine.path;
  path_start = library-IsLine.path_start;
}

memory_region-reads_example :
    easy_parse direct (memory_region native_bitflags direct 64) (text library)
    ≡ some (area native_bitflags library, [])
unfolding fits to_digit
memory_region-reads_example =
    memory_region-reads native_bitflags direct direct-IsCombine 64 library library-IsLine

collect-stops_example :
    collect
      (next native_bitflags direct 64)
      3
      (ok (text library) ∷ ok (text on_nvme) ∷ ok (text library) ∷ [])
    ≡ ok (area native_bitflags library) ∷ []
unfolding fits to_digit
collect-stops_example =
    collect-stops native_bitflags direct direct-IsCombine 64 3 (library ∷ []) on_nvme
      (ok (text library) ∷ []) (omega arith) (library-IsLine, tt) (refl, tt) on_nvme-IsLine refl
