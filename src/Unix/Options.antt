-- ===== src/Unix/Options.antt =====
-- `MmapOptions` of src/os_impl/unix.rs: the builder, and the flags that are passed to `mmap`.
pub mod Requested
pub mod HugePages
use mmap_rs.Common.{
  ℕ, ℤ, Bool, Option, none, some, not, unwrap_or, ◌&&◌, ◌==◌, if◌then◌else◌, is_none,
}
use mmap_rs.Error.{ok, err}
use mmap_rs.Flags.MmapFlags
use mmap_rs.Flags.UnsafeMmapFlags
use mmap_rs.Flags.PageSize
use mmap_rs.Flags.PageSize.{PageSize}
use mmap_rs.Unix.Platform.{
  linux_like, freebsd_like, stack_os, is_freebsd, is_netbsd, is_openbsd, apple, MapFlag, HugeFlag,
  Constants, Platform,
}

-- `std::fs::File`, by its descriptor.
pub record File : Type 0 where
  pub raw_fd : ℤ

pub record MmapOptions : Type 0 where
  pub address : Option ℕ
  pub file : Option (File × ℕ)
  pub size : ℕ
  pub flags : ℕ
  pub unsafe_flags : ℕ
  pub page_size : Option PageSize

unfoldable pub new : ℕ → MmapOptions
new size = record {
  address = none;
  file = none;
  size = size;
  flags = 0;
  unsafe_flags = 0;
  page_size = none;
}

unfoldable pub with_address : MmapOptions → ℕ → MmapOptions
with_address o address = record o { address = some address }

unfoldable pub with_file : MmapOptions → File → ℕ → MmapOptions
with_file o file offset = record o { file = some (file, offset) }

unfoldable pub with_flags : MmapOptions → ℕ → MmapOptions
with_flags o flags = record o { flags = flags }

unfoldable pub with_unsafe_flags : MmapOptions → ℕ → MmapOptions
with_unsafe_flags o flags = record o { unsafe_flags = flags }

unfoldable pub with_page_size : MmapOptions → PageSize → MmapOptions
with_page_size o page_size = record o { page_size = some page_size }

-- The `match page_size` of `flags`.
unfoldable pub huge_page_flag : Constants → PageSize → ℕ
huge_page_flag c p =
    if p.log2 == PageSize._64k.log2
    then c.huge_flag HugeFlag.map_huge_64kb
    else if p.log2 == PageSize._512k.log2
    then c.huge_flag HugeFlag.map_huge_512kb
    else if p.log2 == PageSize._1m.log2
    then c.huge_flag HugeFlag.map_huge_1mb
    else if p.log2 == PageSize._2m.log2
    then c.huge_flag HugeFlag.map_huge_2mb
    else if p.log2 == PageSize._8m.log2
    then c.huge_flag HugeFlag.map_huge_8mb
    else if p.log2 == PageSize._16m.log2
    then c.huge_flag HugeFlag.map_huge_16mb
    else if p.log2 == PageSize._32m.log2
    then c.huge_flag HugeFlag.map_huge_32mb
    else if p.log2 == PageSize._256m.log2
    then c.huge_flag HugeFlag.map_huge_256mb
    else if p.log2 == PageSize._512m.log2
    then c.huge_flag HugeFlag.map_huge_512mb
    else if p.log2 == PageSize._1g.log2
    then c.huge_flag HugeFlag.map_huge_1gb
    else if p.log2 == PageSize._2g.log2
    then c.huge_flag HugeFlag.map_huge_2gb
    else if p.log2 == PageSize._16g.log2
    then c.huge_flag HugeFlag.map_huge_16gb
    else 0

module _ (p : Platform) where
  -- `if condition { flags |= flag; }`
  unfoldable pub add_if : Bool → ℕ → ℕ → ℕ
  add_if condition flag flags = if condition then p.union flags flag else flags

  -- `if let Some(page_size) = self.page_size { … }`
  unfoldable pub add_page_size : Option PageSize → ℕ → ℕ
  add_page_size none flags = flags
  add_page_size (some size) flags =
      p.union (p.union flags (p.map_flag MapFlag.map_hugetlb)) (huge_page_flag p.constants size)

  unfoldable pub flags : MmapOptions → ℕ
  flags o =
      let os = p.target.os in
      let has = p.contains o.flags in
      let has_unsafe = p.contains o.unsafe_flags in
      let f = add_if (is_none o.file) (p.map_flag MapFlag.map_anonymous) 0 in
      let f = p.union f (
        if has MmapFlags.copy_on_write
        then p.map_flag MapFlag.map_private
        else p.map_flag MapFlag.map_shared) in
      let f =
        add_if (linux_like os && has MmapFlags.populate) (p.map_flag MapFlag.map_populate) f in
      let f =
        add_if (not (freebsd_like os) && has MmapFlags.no_reserve)
          (p.map_flag MapFlag.map_noreserve) f in
      let f =
        add_if (linux_like os && has MmapFlags.huge_pages) (p.map_flag MapFlag.map_hugetlb) f in
      let f = if linux_like os then add_page_size o.page_size f else f in
      let f =
        add_if (is_freebsd os && has MmapFlags.huge_pages) (p.map_flag MapFlag.map_aligned_super)
          f in
      let f = add_if (linux_like os && has MmapFlags.locked) (p.map_flag MapFlag.map_locked) f in
      let f = add_if (is_netbsd os && has MmapFlags.locked) (p.map_flag MapFlag.map_wired) f in
      let f = add_if (stack_os os && has MmapFlags.stack) (p.map_flag MapFlag.map_stack) f in
      let f =
        add_if (is_openbsd os && has MmapFlags.no_core_dump) (p.map_flag MapFlag.map_conceal) f in
      let f = add_if (has_unsafe UnsafeMmapFlags.map_fixed) (p.map_flag MapFlag.map_fixed) f in
      add_if (apple os && has_unsafe UnsafeMmapFlags.jit) (p.map_flag MapFlag.map_jit) f

  -- `MmapOptions::page_size`
  unfoldable pub page_size : p.State → ℕ × ℕ
  page_size s =
      let size : ℕ = elim (p.sysconf_page_size s).0 [
        | ok found ↦ unwrap_or found 4096
        | err _ ↦ 4096
      ] in
      (size, size)
