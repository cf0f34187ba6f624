-- ===== src/Windows/Areas.antt =====
-- `MemoryAreas` of src/os_impl/windows.rs: the iterator over the regions of a process.
pub mod Regions
pub mod Access
pub mod Chain
pub mod Open
use mmap_rs.Common.{
  ℕ, zero, suc, ◌+◌, ◌-◌, ◌%◌, ◌^◌, ◌==◌, leb, Bool, not, ◌||◌, Option, none, some, map_option,
  if◌then◌else◌,
}
use mmap_rs.Error.{Error, Result, ok}
use mmap_rs.Areas.{ShareMode, private, copy_on_write, shared, PathBuf, MemoryArea}
use mmap_rs.Areas.Protection
use mmap_rs.Bitflags.{Bitflags}
use mmap_rs.Windows.Platform.{Constants}

-- `MEMORY_BASIC_INFORMATION`
pub record Info : Type 0 where
  pub base_address : ℕ
  pub allocation_base : ℕ
  pub region_size : ℕ
  pub state : ℕ
  pub protect : ℕ
  pub type : ℕ

-- The process, whose memory does not change while it is listed.
pub record Process : Type 0 where
  -- bits of `usize`
  pub width : ℕ
  pub bitflags : Bitflags
  pub open bitflags use *
  pub constants : Constants
  pub open constants use *
  -- VirtualQueryEx, with nothing where it writes less than a whole `MEMORY_BASIC_INFORMATION`
  pub virtual_query : ℕ → Option Info
  -- K32GetMappedFileNameW, up to the first zero and as characters, with nothing for a length of 0
  pub mapped_file_name : ℕ → Option PathBuf

-- Sums and differences wrap where overflow is not checked, and panic where it is.
unfoldable pub add_usize : ℕ → ℕ → ℕ → ℕ
add_usize width a b = (a + b) % 2 ^ width

unfoldable pub sub_u64 : ℕ → ℕ → ℕ
sub_u64 a b = if leb b a then a - b else a + 2 ^ 64 - b

module _ (p : Process) where
  unfoldable pub share_mode_of : Info → ShareMode
  share_mode_of info =
      if p.contains info.type p.mem_private
      then private
      else if info.protect == p.page_execute_writecopy || info.protect == p.page_writecopy
      then copy_on_write
      else shared

  -- The `match` on `info.Protect`.
  unfoldable pub protection_of : ℕ → ℕ
  protection_of protect =
      let all = p.union (p.union Protection.read Protection.write) Protection.execute in
      let both = p.union Protection.read Protection.write in
      if protect == p.page_execute
      then Protection.execute
      else if protect == p.page_execute_read
      then p.union Protection.read Protection.execute
      else if protect == p.page_execute_readwrite || protect == p.page_execute_writecopy
      then all
      else if protect == p.page_readonly
      then Protection.read
      else if protect == p.page_readwrite || protect == p.page_writecopy
      then both
      else 0

  unfoldable pub area_of : ℕ → Info → MemoryArea
  area_of address info = record {
    range = record {
      start = info.base_address;
      end = add_usize p.width info.base_address info.region_size;
    };
    protection = protection_of info.protect;
    share_mode = share_mode_of info;
    path =
        map_option (λ path. (path, sub_u64 info.base_address info.allocation_base))
          (p.mapped_file_name address);
  }

  -- `MEM_COMMIT` has one bit: `info.State & MEM_COMMIT == 0` says that it is not contained.
  abbrev pub is_committed : Info → Bool
  is_committed info = p.contains info.state p.mem_commit

  -- One turn of the `loop`, where `continue` is the rest of the loop.
  abbrev pub turn :
      ℕ
      → (ℕ → Option (Option (Result Error MemoryArea) × ℕ))
      → Option Info
      → Option (Option (Result Error MemoryArea) × ℕ)
  turn address continue none = some (none, address)
  turn address continue (some info) =
      let moved = add_usize p.width address info.region_size in
      if is_committed info then some (some (ok (area_of address info)), moved) else continue moved

  -- `MemoryAreas::next`, by the address that the iterator keeps. Each turn of the loop takes fuel;
  -- the outer `none` says that there was not enough.
  unfoldable pub next : ℕ → ℕ → Option (Option (Result Error MemoryArea) × ℕ)
  next zero address = none
  next (suc fuel) address = turn address (next fuel) (p.virtual_query address)
