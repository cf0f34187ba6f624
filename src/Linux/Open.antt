-- ===== src/Linux/Open.antt =====
-- `MemoryAreas::open` of src/os_impl/linux.rs: which file it opens, and the iterator over its lines.
pub mod Path
pub mod Listed
pub mod Examples
use mmap_rs.Common.{ℕ, Option, none, some, List, ◌++◌, codes}
use mmap_rs.Error.{Error, io, Result, Exec, pure, convert, ◌>>=◌}
use mmap_rs.Bitflags.{Bitflags}
use mmap_rs.Areas.Platform.{Platform}
use mmap_rs.Format.{decimal}
use mmap_rs.Linux.Combine.{Combine}
use mmap_rs.Linux.Region.{Lines, next}

-- `File::open`, and the lines that a `BufReader` over the file gives.
pub record Files : Type 1 where
  pub State : Type 0
  pub File : Type 0
  pub open_file : List ℕ → Exec State ℕ File
  pub lines : File → List (Result ℕ (List ℕ))

-- The path of the file, for a process ID of 32 bits.
unfoldable pub maps_path : Option ℕ → List ℕ
maps_path (some pid) = codes "/proc/" ++ decimal 32 pid ++ codes "/maps"
maps_path none = codes "/proc/self/maps"

module _ (f : Files) (b : Bitflags) (c : Combine) (width : ℕ) where
  unfoldable pub open_lines : Option ℕ → Exec f.State Error (Lines b c width)
  open_lines pid = do file ← convert io (f.open_file (maps_path pid)); pure (f.lines file)

  -- src/os_impl/linux.rs as the `platform` of src/areas.rs.
  abbrev pub linux : Platform
  linux = record {
    State = f.State;
    Inner = Lines b c width;
    open_inner = λ pid s. some (open_lines pid s);
    next_inner = next b c width;
  }
