-- ===== src/Unix/Mapping.antt =====
-- `Mmap` of src/os_impl/unix.rs: what may be done with a mapping, and its end.
pub mod Flags
use mmap_rs.Common.{ℕ, ◌+◌, ◌-◌, ◌%◌, ◌^◌, Option, none, some, leb, if◌then◌else◌, map_option}
use mmap_rs.Error.{Error, unsafe_flag_needed, nix, ok, Exec, raise, convert}
use mmap_rs.Flags.UnsafeMmapFlags
use mmap_rs.Backend.{Range}
use mmap_rs.Unix.Platform.{is_ios, Target, Platform}
use mmap_rs.Unix.Options.{File}
use Flags

pub record Mmap : Type 0 where
  pub file : Option File
  pub ptr : ℕ
  pub size : ℕ
  pub flags : ℕ

abbrev pub file : Mmap → Option File
file m = m.file

abbrev pub as_ptr : Mmap → ℕ
as_ptr m = m.ptr

abbrev pub as_mut_ptr : Mmap → ℕ
as_mut_ptr m = m.ptr

abbrev pub size : Mmap → ℕ
size m = m.size

-- `a - b` on `usize`: below zero it panics, or wraps where overflow is not checked.
unfoldable pub sub_usize : Target → ℕ → ℕ → Option ℕ
sub_usize t a b =
    if leb b a
    then some (a - b)
    else if t.overflow_checks
    then none
    else some (a + 2 ^ t.pointer_width - b)

-- `ptr.offset(n as isize)`: addresses wrap at the width of a pointer.
abbrev pub offset : Target → ℕ → ℕ → ℕ
offset t ptr n = (ptr + n) % 2 ^ t.pointer_width

module _ (p : Platform) where
  unfoldable pub lock : Mmap → Exec p.State Error Unit
  lock m = convert nix (p.mlock m.ptr m.size)

  unfoldable pub unlock : Mmap → Exec p.State Error Unit
  unlock m = convert nix (p.munlock m.ptr m.size)

  abbrev msync_range : ℕ → Mmap → Range → Option (Exec p.State Error Unit)
  msync_range how m r =
      map_option (λ len. convert nix (p.msync (offset p.target m.ptr r.start) len how))
        (sub_usize p.target r.end r.start)

  -- `none` is a panic, before any system call.
  unfoldable pub flush : Mmap → Range → Option (Exec p.State Error Unit)
  flush m r = msync_range p.ms_sync m r

  unfoldable pub flush_async : Mmap → Range → Option (Exec p.State Error Unit)
  flush_async m r = msync_range p.ms_async m r

  -- Both versions, for iOS and for the other systems.
  unfoldable pub flush_icache : Mmap → Exec p.State Error Unit
  flush_icache m s =
      if is_ios p.target.os
      then (ok tt, p.sys_icache_invalidate m.ptr m.size s)
      else (ok tt, p.clear_cache m.ptr (offset p.target m.ptr m.size) s)

  unfoldable pub do_make : Mmap → ℕ → Exec p.State Error Unit
  do_make m protect = convert nix (p.mprotect m.ptr m.size protect)

  unfoldable pub make_none : Mmap → Exec p.State Error Unit
  make_none m = do_make m p.prot_none

  unfoldable pub make_read_only : Mmap → Exec p.State Error Unit
  make_read_only m = do_make m p.prot_read

  unfoldable pub make_exec : Mmap → Exec p.State Error Unit
  make_exec m = do_make m (p.union p.prot_read p.prot_exec)

  unfoldable pub make_mut : Mmap → Exec p.State Error Unit
  make_mut m = do_make m (p.union p.prot_read p.prot_write)

  unfoldable pub make_exec_mut : Mmap → Exec p.State Error Unit
  make_exec_mut m =
      if p.contains m.flags Flags.jit
      then do_make m (p.union (p.union p.prot_read p.prot_write) p.prot_exec)
      else raise (unsafe_flag_needed UnsafeMmapFlags.jit)

  -- The result of `munmap` is dropped.
  unfoldable pub drop : Mmap → p.State → p.State
  drop m s = (p.munmap m.ptr m.size s).1
