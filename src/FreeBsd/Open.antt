-- ===== src/FreeBsd/Open.antt =====
-- `MemoryAreas::open` of src/os_impl/freebsd.rs: the array that `kinfo_getvmmap` allocates is copied
-- and freed.
pub mod Listed
pub mod Examples
use mmap_rs.Common.{
  ℕ, ℤ, zero, suc, Option, none, some, List, [], ◌+◌, ◌∷◌, ◌==◌, if◌then◌else◌, as_signed,
}
use mmap_rs.Error.{Error, Result, ok}
use mmap_rs.Bitflags.{Bitflags}
use mmap_rs.Areas.Platform.{Platform}
use mmap_rs.FreeBsd
use mmap_rs.FreeBsd.{Entry, MemoryAreas}

-- The C library: a pointer is its address, 0 where it is null.
pub record Libc : Type 1 where
  pub State : Type 0
  pub getpid : State → ℤ
  -- kinfo_getvmmap(pid, &count): the array and the count, which starts as 0
  pub kinfo_getvmmap : ℤ → State → (ℕ × ℕ) × State
  -- the entry at an index of an array
  pub load : State → ℕ → ℕ → Entry
  pub free : ℕ → State → State

module _ (l : Libc) where
  -- `slice::from_raw_parts(entries, count).to_vec()`, from the entry `i` on
  unfoldable pub to_vec : l.State → ℕ → ℕ → ℕ → List Entry
  to_vec s entries i zero = []
  to_vec s entries i (suc count) = l.load s entries i ∷ to_vec s entries (i + 1) count

  -- `pid as _`, to the C type `pid_t`, or the process itself
  abbrev pub pid_of : Option ℕ → l.State → ℤ
  pid_of (some pid) s = as_signed 32 pid
  pid_of none s = l.getpid s

  -- `slice::from_raw_parts` of a null pointer is undefined behaviour: `none`.
  unfoldable pub open_entries : Option ℕ → l.State → Option (Result Error MemoryAreas × l.State)
  open_entries pid s =
      let ((entries, count), t) = l.kinfo_getvmmap (pid_of pid s) s in
      if entries == 0
      then none
      else some (ok (record { entries = to_vec t entries 0 count; index = 0 }), l.free entries t)

  -- src/os_impl/freebsd.rs as the `platform` of src/areas.rs.
  abbrev pub freebsd : Bitflags → ℕ → Platform
  freebsd b width = record {
    State = l.State;
    Inner = MemoryAreas;
    open_inner = open_entries;
    next_inner = FreeBsd.next b width;
  }
