-- ===== src/Windows/Map.antt =====
-- `MmapOptions::do_map` of src/os_impl/windows.rs, its helper `check_protection`, and the five ways
-- to map.
use mmap_rs.Common.{
  ℕ, ◌/◌, ◌%◌, ◌^◌, ◌==◌, leb, Bool, true, false, ◌&&◌, Option, none, some, unwrap_or, map_option,
  is_some, if◌then◌else◌,
}
use mmap_rs.Error.{
  Error, unsafe_flag_needed, io, windows, Result, ok, err, Exec, pure, raise, convert, ◌>>=◌, ◌>>◌,
}
use mmap_rs.Flags.MmapFlags
use mmap_rs.Flags.UnsafeMmapFlags
use mmap_rs.Windows.Platform.{File, Platform, status}
use mmap_rs.Windows.Mapping.{Mmap}
use mmap_rs.Windows.Mapping.Flags
use mmap_rs.Windows.Options.{MmapOptions}

module _ (p : Platform) where
  -- What `check_protection` makes of the answer of `CreateFileMappingW`.
  abbrev pub probed : Result ℕ ℕ × p.State → Bool × p.State
  probed (err e, s) = (false, s)
  probed (ok mapping, s) =
      if p.is_invalid mapping then (false, s) else (true, (p.close_handle mapping s).1)

  abbrev pub probe : Option (File × ℕ) → ℕ → p.State → Bool × p.State
  probe none protection s = (false, s)
  probe (some (file, offset)) protection s =
      probed (p.create_file_mapping file.raw_handle protection 0 0 s)

  unfoldable pub check_protection : MmapOptions → ℕ → p.State → Bool × p.State
  check_protection o = probe o.file

  -- `map_protection` and `map_access`, by what the two checks say.
  unfoldable pub widest : Bool → Bool → ℕ × ℕ
  widest true true = (
    p.page_execute_readwrite,
    p.union p.file_map_read (p.union p.file_map_write p.file_map_execute),
  )
  widest true false = (p.page_readwrite, p.union p.file_map_read p.file_map_write)
  widest false true = (p.page_execute_read, p.union p.file_map_read p.file_map_execute)
  widest false false = (p.page_readonly, p.file_map_read)

  -- `size.overflowing_shr(32)`: the shift overflows where `usize` has 32 bits, and the result is 0.
  unfoldable pub size_high : ℕ → ℕ
  size_high size = if leb p.pointer_width 32 then 0 else size / 2 ^ 32 % 2 ^ 32

  -- The address that `MapViewOfFileEx` returns. The handle is closed in any case.
  abbrev pub view : ℕ → ℕ → ℕ → ℕ → p.State → ℕ × p.State
  view mapping access offset size s =
      let viewed =
        p.map_view_of_file mapping access (offset / 2 ^ 32 % 2 ^ 32) (offset % 2 ^ 32) size s in
      (viewed.0, (p.close_handle mapping viewed.1).1)

  -- `VirtualProtect` narrows the view to what the user asked for.
  abbrev pub narrow : ℕ → ℕ → ℕ → Exec p.State Error Unit
  narrow ptr size protection s = status p (p.virtual_protect ptr size protection s)

  -- `if self.flags.contains(MmapFlags::HUGE_PAGES) { … }`, for a file and for anonymous memory.
  abbrev pub add_if_huge : MmapOptions → ℕ → ℕ → ℕ
  add_if_huge o flag flags =
      if p.contains o.flags MmapFlags.huge_pages then p.union flags flag else flags

  abbrev pub create : MmapOptions → File → ℕ → Exec p.State ℕ ℕ
  create o file map_protection =
      p.create_file_mapping file.raw_handle (add_if_huge o p.sec_large_pages map_protection)
        (size_high o.size) (o.size % 2 ^ 32)

  -- What follows the creation of the mapping object.
  unfoldable pub view_narrowed : MmapOptions → ℕ → ℕ → ℕ → ℕ → Exec p.State Error ℕ
  view_narrowed o offset protection map_access mapping s =
      let r = view mapping (add_if_huge o p.file_map_large_pages map_access) offset o.size s in
      (narrow r.0 o.size protection >> pure r.0) r.1

  unfoldable pub map_file : MmapOptions → File → ℕ → ℕ → ℕ × ℕ → Exec p.State Error ℕ
  map_file o file offset protection (map_protection, map_access) =
      convert windows (create o file map_protection)
      >>= view_narrowed o offset protection map_access

  unfoldable pub allocate : MmapOptions → ℕ → Exec p.State Error ℕ
  allocate o protection s =
      let r =
        p.virtual_alloc (unwrap_or o.address 0) o.size
          (add_if_huge o p.mem_large_pages (p.union p.mem_commit p.mem_reserve)) protection s in
      (ok r.0, r.1)

  unfoldable pub obtain : MmapOptions → ℕ → Option (File × ℕ) → ℕ × ℕ → Exec p.State Error ℕ
  obtain o protection none wide = allocate o protection
  obtain o protection (some (file, offset)) wide = map_file o file offset protection wide

  -- `if ptr.is_null() { return Err(std::io::Error::last_os_error())?; }`
  unfoldable pub non_null : ℕ → Exec p.State Error Unit
  non_null ptr s = if ptr == 0 then (err (io (p.last_os_error s)), s) else (ok tt, s)

  abbrev pub remembered : MmapOptions → ℕ
  remembered o =
      let flags =
        if p.contains o.flags MmapFlags.copy_on_write then p.union 0 Flags.copy_on_write else 0 in
      if p.contains o.unsafe_flags UnsafeMmapFlags.jit then p.union flags Flags.jit else flags

  abbrev pub mapping_at : MmapOptions → ℕ → Mmap
  mapping_at o ptr = record {
    file = map_option (λ f. f.0) o.file;
    ptr = ptr;
    size = o.size;
    flags = remembered o;
  }

  -- What follows the two checks.
  unfoldable pub finish : MmapOptions → ℕ → ℕ × ℕ → Exec p.State Error Mmap
  finish o protection wide = do
    ptr ← obtain o protection o.file wide
    non_null ptr
    pure (mapping_at o ptr)

  unfoldable pub do_map : MmapOptions → ℕ → Exec p.State Error Mmap
  do_map o protection s =
      let write = check_protection o p.page_readwrite s in
      let execute = check_protection o p.page_execute_read write.1 in
      finish o protection (widest write.0 execute.0) execute.1

  unfoldable pub map_none : MmapOptions → Exec p.State Error Mmap
  map_none o = do_map o p.page_noaccess

  unfoldable pub map : MmapOptions → Exec p.State Error Mmap
  map o = do_map o p.page_readonly

  unfoldable pub map_exec : MmapOptions → Exec p.State Error Mmap
  map_exec o = do_map o p.page_execute_read

  unfoldable pub map_mut : MmapOptions → Exec p.State Error Mmap
  map_mut o = do_map o (
      if is_some o.file && p.contains o.flags MmapFlags.copy_on_write
      then p.page_writecopy
      else p.page_readwrite)

  unfoldable pub map_exec_mut : MmapOptions → Exec p.State Error Mmap
  map_exec_mut o =
      if p.contains o.unsafe_flags UnsafeMmapFlags.jit
      then do_map o (
          if p.contains o.flags MmapFlags.copy_on_write
          then p.page_execute_writecopy
          else p.page_execute_readwrite)
      else raise (unsafe_flag_needed UnsafeMmapFlags.jit)
