-- ===== src/Linux/Open/Examples.antt =====
-- The theorems on `open` of src/os_impl/linux.rs at work: a system with one file, whose second line
-- cannot be read.
use mmap_rs.Common.{ℕ, ◌≡◌, refl, some, List, [], ◌∷◌, arith, length, ◌==◌, if◌then◌else◌}
use mmap_rs.Error.{io, Result, ok, err, pure, convert, ◌>>=◌}
use mmap_rs.Bitflags.Native.{native_bitflags}
use mmap_rs.Linux.Combine.Direct.{direct, direct-IsCombine}
use mmap_rs.Linux.Number.{to_digit}
use mmap_rs.Linux.Line.{Line, text, fits}
use mmap_rs.Linux.Open.{Files, maps_path, open_lines}
use mmap_rs.Linux.Open.Path.{Names, open_lines-Names}
use mmap_rs.Linux.Open.Listed.{Lists, open_areas-Lists}
use mmap_rs.Linux.Examples.{library, library-IsLine}
use mmap_rs.Format.{digits, decimal}

-- The file of the path with 15 characters: /proc/self/maps, or that of a process ID of 4 digits.
abbrev pub files : Files
files = record {
  State = Unit;
  File = List (Result ℕ (List ℕ));
  open_file = λ path s.
      if length path == 15
      then (ok (ok (text library) ∷ err 5 ∷ ok (text library) ∷ []), s)
      else (err 2, s);
  lines = λ file. file;
}

abbrev pub three : List (Result ℕ Line)
three = ok library ∷ err 5 ∷ ok library ∷ []

open_areas-Lists_example :
    Lists files native_bitflags direct direct-IsCombine 64 (some 1234) tt three
unfolding fits to_digit maps_path digits decimal
open_areas-Lists_example =
    open_areas-Lists files native_bitflags direct direct-IsCombine 64 (some 1234) tt
      {file = ok (text library) ∷ err 5 ∷ ok (text library) ∷ []} {t = tt} three refl refl
      ((library-IsLine, refl), (tt, ((library-IsLine, refl), tt)))

open_lines-Names_example :
    (path : List ℕ) × Names (some 1234) path
    × (open_lines files native_bitflags direct 64 (some 1234) tt
        ≡ (convert io (files.open_file path) >>= (λ file. pure (files.lines file))) tt)
open_lines-Names_example =
    open_lines-Names files native_bitflags direct 64 (some 1234) tt (omega arith)
