-- ===== src/FreeBsd.antt =====
-- src/os_impl/freebsd.rs: the iterator over the entries of `kinfo_getvmmap`.
pub mod Protection
pub mod Flags
pub mod Entries
pub mod Open
pub mod Examples
use mmap_rs.Common.{
  ℕ, suc, ◌+◌, ◌%◌, ◌^◌, Bool, leb, ◌==◌, Option, none, some, List, [], ◌∷◌, if◌then◌else◌, length,
  get_elem?,
}
use mmap_rs.Error.{Error, utf8, Result, ok, err}
use mmap_rs.Bitflags.{Bitflags, add_if}
use mmap_rs.Areas.{private, copy_on_write, PathBuf, MemoryArea}
use mmap_rs.Areas.Protection as Area
use mmap_rs.Utf8.{from_utf8}
use Protection
use Flags

-- `libc::kinfo_vmentry`: the fields that the iterator reads. `kve_path` is the buffer for the path,
-- its rows in one.
pub record Entry : Type 0 where
  pub kve_protection : ℕ
  pub kve_flags : ℕ
  pub kve_start : ℕ
  pub kve_end : ℕ
  pub kve_offset : ℕ
  pub kve_path : List ℕ

pub record MemoryAreas : Type 0 where
  pub entries : List Entry
  pub index : ℕ

-- `path.iter().position(|&c| c == 0)`, or the length
unfoldable pub last : List ℕ → ℕ
last [] = 0
last (c ∷ path) = let rest = last path in if c == 0 then 0 else suc rest

-- `usize` has `width` bits.
module _ (b : Bitflags) (width : ℕ) where
  -- `from_bits_truncate` drops bits that are no flag, and no test looks at those.
  unfoldable pub protection_of : ℕ → ℕ
  protection_of flags =
      let has = b.contains flags in
      add_if b (has Protection.execute) Area.execute
        (add_if b (has Protection.write) Area.write (add_if b (has Protection.read) Area.read 0))

  -- The area of an entry, with a path or with none.
  abbrev pub area_of : Entry → Option (PathBuf × ℕ) → MemoryArea
  area_of entry path = record {
    range = record { start = entry.kve_start % 2 ^ width; end = entry.kve_end % 2 ^ width };
    protection = protection_of entry.kve_protection;
    share_mode = if b.contains entry.kve_flags Flags.cow then copy_on_write else private;
    path = path;
  }

  abbrev pub with_path : Entry → Result ℕ (List ℕ) → Result Error MemoryArea
  with_path entry (ok path) = ok (area_of entry (some (path, entry.kve_offset)))
  with_path entry (err e) = err (utf8 e)

  unfoldable pub item : Entry → Result Error MemoryArea
  item entry =
      if last entry.kve_path == 0
      then ok (area_of entry none)
      else with_path entry (from_utf8 entry.kve_path)

  abbrev pub taken : MemoryAreas → Option Entry → Option (Result Error MemoryArea) × MemoryAreas
  taken areas none = (none, areas)
  taken areas (some entry) = (some (item entry), record areas { index = areas.index + 1 })

  -- `MemoryAreas::next`: indexing the entries does not panic behind the check of the length.
  unfoldable pub next : MemoryAreas → Option (Result Error MemoryArea) × MemoryAreas
  next areas =
      if leb (length areas.entries) areas.index
      then (none, areas)
      else taken areas (get_elem? areas.entries areas.index)
