-- ===== src/Windows/Platform.antt =====
-- What src/os_impl/windows.rs takes from its surroundings: the compilation target, and the constants
-- and functions of the crate `windows`.
use mmap_rs.Common.{ℕ, Bool, true, false}
use mmap_rs.Error.{Error, io, Result, ok, err, Exec}
use mmap_rs.Bitflags.{Bitflags}

pub record Constants : Type 0 where
  pub page_noaccess : ℕ
  pub page_readonly : ℕ
  pub page_readwrite : ℕ
  pub page_writecopy : ℕ
  pub page_execute : ℕ
  pub page_execute_read : ℕ
  pub page_execute_readwrite : ℕ
  pub page_execute_writecopy : ℕ
  pub sec_large_pages : ℕ
  pub file_map_read : ℕ
  pub file_map_write : ℕ
  pub file_map_execute : ℕ
  pub file_map_large_pages : ℕ
  pub mem_commit : ℕ
  pub mem_reserve : ℕ
  pub mem_large_pages : ℕ
  pub mem_decommit : ℕ
  pub mem_release : ℕ
  pub mem_private : ℕ

-- `std::fs::File`, by its handle.
pub record File : Type 0 where
  pub raw_handle : ℕ

-- A function that returns a `BOOL` returns a Boolean, and a pointer is its address, 0 where it is
-- null.
pub record Platform : Type 1 where
  -- bits of `usize`, and whether the processor is arm or aarch64
  pub pointer_width : ℕ
  pub is_arm : Bool
  pub bitflags : Bitflags
  pub open bitflags use *
  pub constants : Constants
  pub open constants use *
  pub State : Type 0
  -- std::io::Error::last_os_error()
  pub last_os_error : State → ℕ
  pub sync_data : File → Exec State ℕ Unit
  -- VirtualLock(address, size), VirtualUnlock(address, size), FlushViewOfFile(address, size)
  pub virtual_lock : ℕ → ℕ → State → Bool × State
  pub virtual_unlock : ℕ → ℕ → State → Bool × State
  pub flush_view_of_file : ℕ → ℕ → State → Bool × State
  -- VirtualProtect(address, size, protect), without the old protection
  pub virtual_protect : ℕ → ℕ → ℕ → State → Bool × State
  -- FlushInstructionCache(GetCurrentProcess(), address, size)
  pub flush_instruction_cache : ℕ → ℕ → State → Bool × State
  -- UnmapViewOfFile(address), VirtualFree(address, size, type)
  pub unmap_view_of_file : ℕ → State → Bool × State
  pub virtual_free : ℕ → ℕ → ℕ → State → Bool × State
  -- VirtualAlloc(address, size, type, protect)
  pub virtual_alloc : ℕ → ℕ → ℕ → ℕ → State → ℕ × State
  -- CreateFileMappingW(file, null, protect, size high, size low, null), with an HRESULT
  pub create_file_mapping : ℕ → ℕ → ℕ → ℕ → Exec State ℕ ℕ
  -- HANDLE::is_invalid
  pub is_invalid : ℕ → Bool
  -- MapViewOfFileEx(mapping, access, offset high, offset low, size, null)
  pub map_view_of_file : ℕ → ℕ → ℕ → ℕ → ℕ → State → ℕ × State
  pub close_handle : ℕ → State → Bool × State
  -- dwPageSize and dwAllocationGranularity of GetSystemInfo
  pub system_info : State → ℕ × ℕ

module _ (p : Platform) where
  -- `if !status { return Err(std::io::Error::last_os_error())?; } Ok(())`
  abbrev pub status : Bool × p.State → Result Error Unit × p.State
  status (true, s) = (ok tt, s)
  status (false, s) = (err (io (p.last_os_error s)), s)
