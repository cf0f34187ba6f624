-- ===== src/Areas.antt =====
-- src/areas.rs: a memory area of a process. The iterators over the areas of each system are in the
-- modules of that system; `MemoryAreas` of src/areas.rs only passes on to them.
pub mod Protection
pub mod Access
pub mod Platform
use mmap_rs.Common.{ℕ, Option, List, map_option}
use mmap_rs.Backend.{Range}

pub data ShareMode : Type 0 where
  private copy_on_write shared : ShareMode

-- A `PathBuf`, by its characters.
abbrev pub PathBuf : Type 0
PathBuf = List ℕ

pub record MemoryArea : Type 0 where
  pub range : Range
  pub protection : ℕ
  pub share_mode : ShareMode
  pub path : Option (PathBuf × ℕ)

unfoldable pub range : MemoryArea → Range
range area = area.range

unfoldable pub start : MemoryArea → ℕ
start area = area.range.start

unfoldable pub end : MemoryArea → ℕ
end area = area.range.end

unfoldable pub protection : MemoryArea → ℕ
protection area = area.protection

unfoldable pub share_mode : MemoryArea → ShareMode
share_mode area = area.share_mode

unfoldable pub path : MemoryArea → Option PathBuf
path area = map_option (λ p. p.0) area.path

unfoldable pub file_offset : MemoryArea → Option ℕ
file_offset area = map_option (λ p. p.1) area.path
