-- ===== src/Windows/Mapping.antt =====
-- `Mmap` of src/os_impl/windows.rs: what may be done with a mapping, and its end.
pub mod Flags
use mmap_rs.Common.{ℕ, ◌+◌, ◌-◌, ◌%◌, ◌^◌, Option, none, some, leb, ◌&&◌, if◌then◌else◌, is_some}
use mmap_rs.Error.{Error, unsafe_flag_needed, io, ok, Exec, pure, raise, convert, ◌>>◌}
use mmap_rs.Flags.UnsafeMmapFlags
use mmap_rs.Backend.{Range}
use mmap_rs.Windows.Platform.{File, Platform, status}
use Flags

pub record Mmap : Type 0 where
  pub file : Option File
  pub ptr : ℕ
  pub size : ℕ
  pub flags : ℕ

abbrev pub file : Mmap → Option File
file m = m.file

abbrev pub as_ptr : Mmap → ℕ
as_ptr m = m.ptr

abbrev pub as_mut_ptr : Mmap → ℕ
as_mut_ptr m = m.ptr

abbrev pub size : Mmap → ℕ
size m = m.size

module _ (p : Platform) where
  unfoldable pub lock : Mmap → Exec p.State Error Unit
  lock m s = status p (p.virtual_lock m.ptr m.size s)

  unfoldable pub unlock : Mmap → Exec p.State Error Unit
  unlock m s = status p (p.virtual_unlock m.ptr m.size s)

  unfoldable pub flush_async : Mmap → Range → Exec p.State Error Unit
  flush_async m r s =
      if leb r.end r.start
      then (ok tt, s)
      else status p
          (p.flush_view_of_file ((m.ptr + r.start) % 2 ^ p.pointer_width) (r.end - r.start) s)

  -- `if let Some(ref file) = self.file { file.sync_data()?; }`
  abbrev pub sync : Option File → Exec p.State Error Unit
  sync none = pure tt
  sync (some file) = convert io (p.sync_data file)

  unfoldable pub flush : Mmap → Range → Exec p.State Error Unit
  flush m r = flush_async m r >> sync m.file

  unfoldable pub do_make : Mmap → ℕ → Exec p.State Error Unit
  do_make m protect s = status p (p.virtual_protect m.ptr m.size protect s)

  -- The result of `FlushInstructionCache` is dropped.
  unfoldable pub flush_icache : Mmap → Exec p.State Error Unit
  flush_icache m s =
      if p.is_arm then (ok tt, (p.flush_instruction_cache m.ptr m.size s).1) else (ok tt, s)

  unfoldable pub make_none : Mmap → Exec p.State Error Unit
  make_none m = do_make m p.page_noaccess

  unfoldable pub make_read_only : Mmap → Exec p.State Error Unit
  make_read_only m = do_make m p.page_readwrite

  unfoldable pub make_exec : Mmap → Exec p.State Error Unit
  make_exec m = do_make m p.page_execute_read

  unfoldable pub make_mut : Mmap → Exec p.State Error Unit
  make_mut m = do_make m (
      if is_some m.file && p.contains m.flags Flags.copy_on_write
      then p.page_writecopy
      else p.page_readwrite)

  unfoldable pub make_exec_mut : Mmap → Exec p.State Error Unit
  make_exec_mut m =
      if p.contains m.flags Flags.jit
      then do_make m (
          if p.contains m.flags Flags.copy_on_write
          then p.page_execute_writecopy
          else p.page_execute_readwrite)
      else raise (unsafe_flag_needed UnsafeMmapFlags.jit)

  -- The results of the two calls are dropped.
  unfoldable pub drop : Mmap → p.State → p.State
  drop m s =
      if is_some m.file
      then (p.unmap_view_of_file m.ptr s).1
      else (p.virtual_free m.ptr m.size (p.union p.mem_decommit p.mem_release) s).1
