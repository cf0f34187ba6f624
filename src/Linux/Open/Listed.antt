-- ===== src/Linux/Open/Listed.antt =====
-- The memory areas that a client of src/areas.rs lists over src/os_impl/linux.rs.
use mmap_rs.Common.{ℕ, ◌<◌, ◌≡◌, refl, ◌∙◌, Option, some, List, map, length, All, collect}
use mmap_rs.Error.{Result, ok}
use mmap_rs.Bitflags.{Bitflags}
use mmap_rs.Areas.Platform
use mmap_rs.Areas.Platform.{MemoryAreas, open_areas, collect-inner}
use mmap_rs.Linux.Combine.{Combine, IsCombine}
use mmap_rs.Linux.Line.{Line}
use mmap_rs.Linux.Line.Reads.{Readable, line_of, item_of, collect-lines}
use mmap_rs.Linux.Open.{Files, maps_path, open_lines, linux}

module _ (f : Files) (b : Bitflags) (c : Combine) (k : IsCombine c) (width : ℕ) where
  -- What a client that has opened the areas of a process gets from its calls of `next`.
  pub record Lists (pid : Option ℕ) (s : f.State) (rs : List (Result ℕ Line)) : Type 0 where
    pub areas : MemoryAreas (linux f b c width)
    pub state : f.State
    pub opened : open_areas (linux f b c width) pid s ≡ some (ok areas, state)
    pub listed :
        (fuel : ℕ)
        → length rs < fuel
        → collect (Platform.next (linux f b c width)) fuel areas ≡ map (item_of b c k width) rs

  -- Where the parsers of `combine` obey their laws: if the file of the process can be opened,
  -- and holds lines as the kernel writes them whose numbers all fit, some of which may fail to
  -- be read, then `MemoryAreas::open` succeeds, and more calls of `next` than there are lines
  -- see an item for every line in order, its area or the error of reading it, and then the end.
  pub open_areas-Lists :
      (pid : Option ℕ) (s : f.State) {file : f.File} {t : f.State} (rs : List (Result ℕ Line))
      → f.open_file (maps_path pid) s ≡ (ok file, t)
      → f.lines file ≡ map (line_of b c k width) rs
      → All (Readable b c k width) rs
      → Lists pid s rs
  unfolding open_areas open_lines
  open_areas-Lists pid s {file} {t} rs found written readable = record {
    areas = record { inner = f.lines file };
    state = t;
    opened = rw found refl;
    listed = λ fuel more.
        collect-inner (linux f b c width) fuel (record { inner = f.lines file })
        ∙ rw written (collect-lines b c k width fuel rs more readable);
  }
