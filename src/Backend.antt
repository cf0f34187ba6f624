-- ===== src/Backend.antt =====
-- What src/mmap.rs uses of its `platform` module, which is src/os_impl/unix.rs or
-- src/os_impl/windows.rs: a type of mappings, a type of options, and their methods.
use mmap_rs.Common.{ℕ, Option}
use mmap_rs.Error.{Error, Exec}
use mmap_rs.Flags.PageSize.{PageSize}

-- `std::ops::Range<usize>`
pub record Range : Type 0 where
  pub start : ℕ
  pub end : ℕ

pub record Backend : Type 1 where
  pub State : Type 0
  pub File : Type 0
  pub Mapping : Type 0
  pub Options : Type 0
  pub file : Mapping → Option File
  pub as_ptr : Mapping → ℕ
  pub as_mut_ptr : Mapping → ℕ
  pub size : Mapping → ℕ
  pub lock : Mapping → Exec State Error Unit
  pub unlock : Mapping → Exec State Error Unit
  -- `none` is a panic
  pub flush : Mapping → Range → Option (Exec State Error Unit)
  pub flush_async : Mapping → Range → Option (Exec State Error Unit)
  pub flush_icache : Mapping → Exec State Error Unit
  pub make_none : Mapping → Exec State Error Unit
  pub make_read_only : Mapping → Exec State Error Unit
  pub make_exec : Mapping → Exec State Error Unit
  pub make_mut : Mapping → Exec State Error Unit
  pub make_exec_mut : Mapping → Exec State Error Unit
  pub drop : Mapping → State → State
  pub new : ℕ → Options
  pub page_size : State → ℕ × ℕ
  pub with_address : Options → ℕ → Options
  pub with_file : Options → File → ℕ → Options
  pub with_flags : Options → ℕ → Options
  pub with_unsafe_flags : Options → ℕ → Options
  pub with_page_size : Options → PageSize → Options
  pub map_none : Options → Exec State Error Mapping
  pub map : Options → Exec State Error Mapping
  pub map_exec : Options → Exec State Error Mapping
  pub map_mut : Options → Exec State Error Mapping
  pub map_exec_mut : Options → Exec State Error Mapping
