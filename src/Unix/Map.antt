-- ===== src/Unix/Map.antt =====
-- `MmapOptions::do_map` of src/os_impl/unix.rs, and the five ways to map that call it.
pub mod Outcome
pub mod Protection
use mmap_rs.Common.{
  ℕ, ℤ, pos, negsuc, Bool, not, ◌&&◌, ◌||◌, Option, as_signed, unwrap_or, map_option, if◌then◌else◌,
}
use mmap_rs.Error.{Error, unsafe_flag_needed, nix, Exec, pure, raise, convert, ◌>>=◌, ◌>>◌}
use mmap_rs.Flags.MmapFlags
use mmap_rs.Flags.UnsafeMmapFlags
use mmap_rs.Unix.Platform.{linux_like, freebsd_like, is_netbsd, Platform}
use mmap_rs.Unix.Options.{File, MmapOptions, flags}
use mmap_rs.Unix.Mapping.{Mmap}
use mmap_rs.Unix.Mapping.Flags

module _ (p : Platform) where
  -- `file.as_raw_fd()`, or -1
  abbrev pub fd_of : Option (File × ℕ) → ℤ
  fd_of file = unwrap_or (map_option (λ f. f.0.raw_fd) file) (negsuc 0)

  -- `*offset as off_t`, or 0
  abbrev pub offset_of : Option (File × ℕ) → ℤ
  offset_of file = unwrap_or (map_option (λ f. as_signed p.target.off_width f.1) file) (pos 0)

  -- `if condition { call?; }`
  unfoldable pub call_if : Bool → Exec p.State ℕ Unit → Exec p.State Error Unit
  call_if condition call = if condition then convert nix call else pure tt

  -- The flags that the mapping remembers.
  abbrev pub remembered : MmapOptions → ℕ
  remembered o = if p.contains o.unsafe_flags UnsafeMmapFlags.jit then p.union 0 Flags.jit else 0

  -- The call of `mmap`, and the conversion of its error.
  abbrev pub nix_mmap : MmapOptions → ℕ → Exec p.State ℕ ℕ
  nix_mmap o protect =
      p.mmap (unwrap_or o.address 0) o.size protect (flags p o) (fd_of o.file) (offset_of o.file)

  unfoldable pub mmap_call : MmapOptions → ℕ → Exec p.State Error ℕ
  mmap_call o protect = convert nix (nix_mmap o protect)

  -- The calls that follow `mmap`: `madvise` and `mlock`, each where the system has it.
  unfoldable pub advise : MmapOptions → ℕ → Exec p.State Error Unit
  advise o ptr = do
    call_if (linux_like p.target.os && p.contains o.flags MmapFlags.no_core_dump)
        (p.madvise ptr o.size p.madv_dontdump)
    call_if (freebsd_like p.target.os && p.contains o.flags MmapFlags.no_core_dump)
        (p.madvise ptr o.size p.madv_nocore)
    call_if
        (not (linux_like p.target.os || is_netbsd p.target.os)
          && p.contains o.flags MmapFlags.locked)
        (p.mlock ptr o.size)

  unfoldable pub do_map : MmapOptions → ℕ → Exec p.State Error Mmap
  do_map o protect = do
    ptr ← mmap_call o protect
    advise o ptr
    pure (record {
      file = map_option (λ f. f.0) o.file;
      ptr = ptr;
      size = o.size;
      flags = remembered o;
    })

  unfoldable pub map_none : MmapOptions → Exec p.State Error Mmap
  map_none o = do_map o p.prot_none

  unfoldable pub map : MmapOptions → Exec p.State Error Mmap
  map o = do_map o p.prot_read

  unfoldable pub map_exec : MmapOptions → Exec p.State Error Mmap
  map_exec o = do_map o (p.union p.prot_read p.prot_exec)

  unfoldable pub map_mut : MmapOptions → Exec p.State Error Mmap
  map_mut o = do_map o (p.union p.prot_read p.prot_write)

  unfoldable pub map_exec_mut : MmapOptions → Exec p.State Error Mmap
  map_exec_mut o =
      if p.contains o.unsafe_flags UnsafeMmapFlags.jit
      then do_map o (p.union (p.union p.prot_read p.prot_write) p.prot_exec)
      else raise (unsafe_flag_needed UnsafeMmapFlags.jit)
