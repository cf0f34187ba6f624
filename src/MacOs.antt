-- ===== src/MacOs.antt =====
-- src/os_impl/macos.rs: the iterator over the regions of a task.
pub mod Regions
pub mod Order
pub mod Open
pub mod Examples
use mmap_rs.Common.{
  ℕ, ◌+◌, ◌-◌, ◌%◌, ◌^◌, ◌==◌, ltb, Bool, Option, none, some, List, [], ◌∷◌, if◌then◌else◌,
}
use mmap_rs.Error.{Error, utf8, mach, Result, ok, err}
use mmap_rs.Bitflags.{Bitflags, add_if}
use mmap_rs.Areas.{private, shared, PathBuf, MemoryArea}
use mmap_rs.Areas.Protection
use mmap_rs.Utf8.{from_utf8}

-- What `mach_vm_region` writes: the address and the size, and the fields of the information that the
-- iterator reads.
pub record Region : Type 0 where
  pub address : ℕ
  pub size : ℕ
  pub protection : ℕ
  pub shared : ℕ
  pub offset : ℕ

pub data KernReturn : Type 0 where
  kern_success : Region → KernReturn
  kern_invalid_address : KernReturn
  kern_failure : ℕ → KernReturn

-- The task, whose memory does not change while it is listed: the region at an address or behind it,
-- and the bytes of the path of the region at an address, none for a result of 0.
pub record Task : Type 0 where
  -- bits of `usize`
  pub width : ℕ
  pub bitflags : Bitflags
  pub open bitflags use *
  pub vm_prot_read : ℕ
  pub vm_prot_write : ℕ
  pub vm_prot_execute : ℕ
  pub mach_vm_region : ℕ → KernReturn
  pub proc_regionfilename : ℕ → List ℕ

-- `u64::saturating_add`
unfoldable pub saturating_add : ℕ → ℕ → ℕ
saturating_add a b = if ltb (a + b) (2 ^ 64) then a + b else 2 ^ 64 - 1

module _ (t : Task) where
  -- `info.protection & flag == flag` is `contains`.
  unfoldable pub protection_of : ℕ → ℕ
  protection_of bits =
      let has = t.contains bits in
      add_if t.bitflags (has t.vm_prot_execute) Protection.execute (
        add_if t.bitflags (has t.vm_prot_write) Protection.write
          (add_if t.bitflags (has t.vm_prot_read) Protection.read 0))

  -- The sum of the address and the size stays below the width in memory that exists.
  abbrev pub area_of : Region → Option (PathBuf × ℕ) → MemoryArea
  area_of r path =
      let start = r.address % 2 ^ t.width in
      record {
        range = record { start = start; end = (start + r.size) % 2 ^ t.width };
        protection = protection_of r.protection;
        share_mode = if r.shared == 0 then private else shared;
        path = path;
      }

  -- A region with a path or with none moves the address behind it; an error leaves it there.
  abbrev pub named : Region → Result ℕ (List ℕ) → Option (Result Error MemoryArea) × ℕ
  named r (ok path) =
      (some (ok (area_of r (some (path, r.offset)))), saturating_add r.address r.size)
  named r (err e) = (some (err (utf8 e)), r.address)

  abbrev pub with_path : Region → List ℕ → Option (Result Error MemoryArea) × ℕ
  with_path r [] = (some (ok (area_of r none)), saturating_add r.address r.size)
  with_path r (c ∷ bytes) = named r (from_utf8 (c ∷ bytes))

  abbrev pub answered : ℕ → KernReturn → Option (Result Error MemoryArea) × ℕ
  answered address (kern_success r) = with_path r (t.proc_regionfilename r.address)
  answered address kern_invalid_address = (none, address)
  answered address (kern_failure result) = (some (err (mach result)), address)

  -- `MemoryAreas::next`, by the address that the iterator keeps.
  unfoldable pub next : ℕ → Option (Result Error MemoryArea) × ℕ
  next address = answered address (t.mach_vm_region address)
