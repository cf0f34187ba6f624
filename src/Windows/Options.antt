-- ===== src/Windows/Options.antt =====
-- `MmapOptions` of src/os_impl/windows.rs: the builder.
use mmap_rs.Common.{ℕ, Option, none, some}
use mmap_rs.Flags.PageSize.{PageSize}
use mmap_rs.Windows.Platform.{File, Platform}

pub record MmapOptions : Type 0 where
  pub address : Option ℕ
  pub file : Option (File × ℕ)
  pub size : ℕ
  pub flags : ℕ
  pub unsafe_flags : ℕ
  pub page_size : Option PageSize

unfoldable pub new : ℕ → MmapOptions
new size = record {
  address = none;
  file = none;
  size = size;
  flags = 0;
  unsafe_flags = 0;
  page_size = none;
}

unfoldable pub page_size : (p : Platform) → p.State → ℕ × ℕ
page_size p s = p.system_info s

unfoldable pub with_address : MmapOptions → ℕ → MmapOptions
with_address o address = record o { address = some address }

unfoldable pub with_file : MmapOptions → File → ℕ → MmapOptions
with_file o file offset = record o { file = some (file, offset) }

unfoldable pub with_flags : MmapOptions → ℕ → MmapOptions
with_flags o flags = record o { flags = flags }

unfoldable pub with_unsafe_flags : MmapOptions → ℕ → MmapOptions
with_unsafe_flags o flags = record o { unsafe_flags = flags }

unfoldable pub with_page_size : MmapOptions → PageSize → MmapOptions
with_page_size o page_size = record o { page_size = some page_size }
