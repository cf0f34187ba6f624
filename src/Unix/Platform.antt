-- ===== src/Unix/Platform.antt =====
-- What src/os_impl/unix.rs takes from its surroundings: the compilation target, and the constants
-- and system calls of the crate `nix` and of LLVM's runtime.
use mmap_rs.Common.{ℕ, ℤ, Bool, true, false, Option}
use mmap_rs.Error.{Exec}
use mmap_rs.Bitflags.{Bitflags}

-- The values of `target_os` that the `cfg` attributes name.
pub data Os : Type 0 where
  android linux freebsd dragonfly netbsd openbsd macos ios : Os

pub record Target : Type 0 where
  pub os : Os
  -- bits of `usize`, and of the C type `off_t`
  pub pointer_width : ℕ
  pub off_width : ℕ
  -- whether arithmetic that overflows panics, or wraps
  pub overflow_checks : Bool

-- `any(target_os = "android", target_os = "linux")`
abbrev pub linux_like : Os → Bool
linux_like android = true
linux_like linux = true
linux_like _ = false

-- `any(target_os = "dragonfly", target_os = "freebsd")`
abbrev pub freebsd_like : Os → Bool
freebsd_like freebsd = true
freebsd_like dragonfly = true
freebsd_like _ = false

-- `any(target_os = "android", target_os = "dragonfly", target_os = "freebsd", target_os = "linux",
-- target_os = "openbsd")`
abbrev pub stack_os : Os → Bool
stack_os android = true
stack_os dragonfly = true
stack_os freebsd = true
stack_os linux = true
stack_os openbsd = true
stack_os _ = false

abbrev pub is_freebsd : Os → Bool
is_freebsd freebsd = true
is_freebsd _ = false

abbrev pub is_netbsd : Os → Bool
is_netbsd netbsd = true
is_netbsd _ = false

abbrev pub is_openbsd : Os → Bool
is_openbsd openbsd = true
is_openbsd _ = false

-- `any(target_os = "ios", target_os = "macos")`
abbrev pub apple : Os → Bool
apple macos = true
apple ios = true
apple _ = false

abbrev pub is_ios : Os → Bool
is_ios ios = true
is_ios _ = false

-- The constants of `nix::sys::mman::MapFlags`, less those for the size of huge pages.
pub data MapFlag : Type 0 where
  map_shared map_private map_fixed map_anonymous map_populate map_noreserve map_hugetlb : MapFlag
  map_aligned_super map_locked map_wired map_stack map_conceal map_jit : MapFlag

pub data HugeFlag : Type 0 where
  map_huge_64kb map_huge_512kb map_huge_1mb map_huge_2mb map_huge_8mb map_huge_16mb : HugeFlag
  map_huge_32mb map_huge_256mb map_huge_512mb map_huge_1gb map_huge_2gb map_huge_16gb : HugeFlag

-- The bits of each constant, which the C library of the target chooses.
pub record Constants : Type 0 where
  pub map_flag : MapFlag → ℕ
  pub huge_flag : HugeFlag → ℕ
  pub prot_none : ℕ
  pub prot_read : ℕ
  pub prot_write : ℕ
  pub prot_exec : ℕ
  pub ms_sync : ℕ
  pub ms_async : ℕ
  pub madv_dontdump : ℕ
  pub madv_nocore : ℕ

-- A `nix` call fails with an `errno`.
pub record Platform : Type 1 where
  pub target : Target
  pub bitflags : Bitflags
  pub open bitflags use *
  pub constants : Constants
  pub open constants use *
  pub State : Type 0
  -- mmap(addr, length, prot, flags, fd, offset)
  pub mmap : ℕ → ℕ → ℕ → ℕ → ℤ → ℤ → Exec State ℕ ℕ
  -- munmap(addr, length), mprotect(addr, length, prot), msync(addr, length, flags)
  pub munmap : ℕ → ℕ → Exec State ℕ Unit
  pub mprotect : ℕ → ℕ → ℕ → Exec State ℕ Unit
  pub msync : ℕ → ℕ → ℕ → Exec State ℕ Unit
  -- madvise(addr, length, advise), mlock(addr, length), munlock(addr, length)
  pub madvise : ℕ → ℕ → ℕ → Exec State ℕ Unit
  pub mlock : ℕ → ℕ → Exec State ℕ Unit
  pub munlock : ℕ → ℕ → Exec State ℕ Unit
  -- sysconf(_SC_PAGESIZE)
  pub sysconf_page_size : Exec State ℕ (Option ℕ)
  -- sys_icache_invalidate(start, size), __clear_cache(start, end)
  pub sys_icache_invalidate : ℕ → ℕ → State → State
  pub clear_cache : ℕ → ℕ → State → State
