-- ===== src/Programs/MapAnon.antt =====
-- examples/map_anon.rs, over any backend of src/mmap.rs. What it writes to the mapping and prints is
-- left out, but not that it takes four bytes of it.
pub mod Cleans
use mmap_rs.Common.{leb, Option, none, some, if◌then◌else◌}
use mmap_rs.Error.{Error, Result, ok, err}
use mmap_rs.Flags.MmapFlags
use mmap_rs.Backend.{Backend}
use mmap_rs.Mmap
use mmap_rs.Mmap.{MmapMut}
use mmap_rs.Mmap.MutSlices.{as_mut_slice}
use mmap_rs.Mmap.Options
use mmap_rs.Mmap.Options.{MmapOptions}

module _ (b : Backend) where
  -- The end of the program, with `none` for a panic. The mapping that it owns is dropped.
  abbrev pub Exit : Type 0
  Exit = Option (Result Error Unit) × b.State

  -- `match mapping.make_read_only()`: either result holds the mapping, which is then dropped.
  abbrev pub finish : Result (MmapMut b × Error) (Mmap.Mmap b) × b.State → Exit
  finish (ok mapping, s) = (some (ok tt), b.drop mapping.inner s)
  finish (err (mapping, e), s) = (some (err e), b.drop mapping.inner s)

  -- After `map_mut()?`: `mapping[0..4]` panics on a shorter slice.
  abbrev pub with_mapping : Result Error (MmapMut b) × b.State → Exit
  with_mapping (err e, s) = (some (err e), s)
  with_mapping (ok mapping, s) =
      let ended = finish (Mmap.make_read_only b (λ m. m.inner) mapping s) in
      if leb 4 (as_mut_slice b mapping).length then ended else (none, b.drop mapping.inner s)

  -- The options for one page of private anonymous memory.
  unfoldable pub one_page : b.State → MmapOptions b
  unfolding Options.new Options.with_flags Options.page_size
  one_page s =
      Options.with_flags b (Options.new b (Options.page_size b s).0) MmapFlags.copy_on_write

  unfoldable pub main : b.State → Exit
  unfolding one_page
  main s = with_mapping (Options.map_mut b (one_page s) s)
