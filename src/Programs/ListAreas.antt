-- ===== src/Programs/ListAreas.antt =====
-- examples/areas.rs, over any platform of src/areas.rs: it prints a row for each memory area of its
-- own process.
pub mod Prints
pub mod Rows
pub mod OnLinux
use mmap_rs.Common.{
  ℕ, zero, suc, Bool, true, false, Option, none, some, List, [], ◌∷◌, ◌++◌, codes, unwrap_or,
  map_option, if◌then◌else◌,
}
use mmap_rs.Error.{Error, Result, ok, err}
use mmap_rs.Bitflags.{Bitflags}
use mmap_rs.Areas
use mmap_rs.Areas.{ShareMode, MemoryArea, shared}
use mmap_rs.Areas.Protection
use mmap_rs.Areas.Platform.{Platform, MemoryAreas, open_areas, next}
use mmap_rs.Format.{hex}

-- `area.share_mode() == ShareMode::Shared`
abbrev pub is_shared : ShareMode → Bool
is_shared shared = true
is_shared _ = false

-- The row of an area, where `usize` has `width` bits.
module _ (b : Bitflags) (width : ℕ) where
  abbrev pub letter : Bool → ℕ → ℕ → ℕ
  letter condition given other = if condition then given else other

  unfoldable pub row : MemoryArea → List ℕ
  unfolding Areas.start Areas.end Areas.protection Areas.share_mode Areas.file_offset Areas.path
  row area =
      hex width (Areas.start area)
      ++ b'-'
        ∷ (hex width (Areas.end area)
            ++ 0x20
              ∷ letter (b.contains (Areas.protection area) Protection.read) b'r' b'-'
              ∷ letter (b.contains (Areas.protection area) Protection.write) b'w' b'-'
              ∷ letter (b.contains (Areas.protection area) Protection.execute) b'x' b'-'
              ∷ letter (is_shared (Areas.share_mode area)) b's' b'p'
              ∷ 0x20
              ∷ (hex 64 (unwrap_or (Areas.file_offset area) 0)
                  ++ 0x20 ∷ unwrap_or (Areas.path area) []))

-- The rows that were printed, and the end of the program.
abbrev pub Output : Type 0
Output = List (List ℕ) × Result Error Unit

abbrev pub print : List ℕ → Output → Output
print line (lines, end) = (line ∷ lines, end)

module _ (p : Platform) (b : Bitflags) (width : ℕ) where
  -- One turn of the loop, where `go_on` is the rest of the loop.
  abbrev pub turn :
      (MemoryAreas p → Option Output)
      → Option (Result Error MemoryArea) × MemoryAreas p
      → Option Output
  turn go_on (none, maps) = some ([], ok tt)
  turn go_on (some (ok area), maps) = map_option (print (row b width area)) (go_on maps)
  turn go_on (some (err e), maps) = some ([], err e)

  -- `for area in maps { let area = area?; … }`. Each turn takes fuel; `none` says that there was
  -- not enough.
  unfoldable pub print_all : ℕ → MemoryAreas p → Option Output
  unfolding row
  print_all zero maps = none
  print_all (suc fuel) maps = turn (print_all fuel) (next p maps)

  abbrev pub with_areas : ℕ → Result Error (MemoryAreas p) × p.State → Option Output × p.State
  with_areas fuel (ok maps, s) = (print_all fuel maps, s)
  with_areas fuel (err e, s) = (some ([], err e), s)

  -- The outer `none` is undefined behaviour.
  unfoldable pub main : ℕ → p.State → Option (Option Output × p.State)
  unfolding print_all
  main fuel s = map_option (with_areas fuel) (open_areas p none s)
