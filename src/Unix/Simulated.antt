-- ===== src/Unix/Simulated.antt =====
-- A system for examples: Linux on x86-64, with the constants of its C library, and a kernel that
-- keeps the protection of each address and gives out fresh addresses. It meets what the code relies
-- on.
use mmap_rs.Common.{
  ℕ, ◌+◌, ◌*◌, ◌^◌, ◌≡◌, refl, Bool, false, ◌&&◌, ◌||◌, Option, none, some, arith, ltb, leb, ◌==◌,
  if◌then◌else◌, is_none,
}
use mmap_rs.Error.{ok, err}
use mmap_rs.Bitflags.Native.{native_bitflags, native_bitflags-IsLawful}
use mmap_rs.Unix.Platform.{
  Os, MapFlag, map_shared, map_private, map_fixed, map_anonymous, map_populate, map_noreserve,
  map_hugetlb, map_aligned_super, map_locked, map_wired, map_stack, map_conceal, map_jit, HugeFlag,
  map_huge_64kb, map_huge_512kb, map_huge_1mb, map_huge_2mb, map_huge_8mb, map_huge_16mb,
  map_huge_32mb, map_huge_256mb, map_huge_512mb, map_huge_1gb, map_huge_2gb, map_huge_16gb,
  Constants, Platform,
}
use mmap_rs.Unix.Libc.{index, HasFlags}
use mmap_rs.Unix.Kernel.{HasProtections, IsKernel}
use mmap_rs.Unix.Kernel.Pages.{span, HasPages}

-- The flags that Linux lacks stand in bits that it does not use.
abbrev pub map_bit : MapFlag → ℕ
map_bit map_shared = 0
map_bit map_private = 1
map_bit map_fixed = 4
map_bit map_anonymous = 5
map_bit map_populate = 15
map_bit map_noreserve = 14
map_bit map_hugetlb = 18
map_bit map_aligned_super = 24
map_bit map_locked = 13
map_bit map_wired = 23
map_bit map_stack = 17
map_bit map_conceal = 22
map_bit map_jit = 21

-- `MAP_HUGE_SHIFT` is 26.
abbrev huge_log2 : HugeFlag → ℕ
huge_log2 map_huge_64kb = 16
huge_log2 map_huge_512kb = 19
huge_log2 map_huge_1mb = 20
huge_log2 map_huge_2mb = 21
huge_log2 map_huge_8mb = 23
huge_log2 map_huge_16mb = 24
huge_log2 map_huge_32mb = 25
huge_log2 map_huge_256mb = 28
huge_log2 map_huge_512mb = 29
huge_log2 map_huge_1gb = 30
huge_log2 map_huge_2gb = 31
huge_log2 map_huge_16gb = 34

abbrev linux_constants : Constants
linux_constants = record {
  map_flag = λ f. 2 ^ map_bit f;
  huge_flag = λ h. huge_log2 h * 2 ^ 26;
  prot_none = 0;
  prot_read = 1;
  prot_write = 2;
  prot_exec = 4;
  ms_sync = 4;
  ms_async = 1;
  madv_dontdump = 16;
  madv_nocore = 8;
}

pub record Memory : Type 0 where
  pub next : ℕ
  pub prot : ℕ → Option ℕ

abbrev paint : Memory → ℕ → ℕ → Option ℕ → Memory
paint s a n v = record s { prot = λ x. if leb a x && ltb x (a + n) then v else s.prot x }

-- `EINVAL` is 22 and `ENOMEM` is 12. `advises` says whether `madvise` succeeds.
abbrev pub simulated : Os → Bool → Platform
simulated os advises = record {
  target = record { os = os; pointer_width = 64; off_width = 64; overflow_checks = false };
  bitflags = native_bitflags;
  constants = linux_constants;
  State = Memory;
  mmap = λ a n prot flags fd offset s. if n == 0 then (err 22, s) else (
    ok s.next,
    record (paint s s.next (span 4096 n) (some prot)) { next = s.next + span 4096 n },
  );
  munmap = λ a n s. (ok tt, paint s a (span 4096 n) none);
  mprotect = λ a n prot s.
      if is_none (s.prot a) || ltb s.next (a + n)
      then (err 12, s)
      else (ok tt, paint s a n (some prot));
  msync = λ a n f s. (ok tt, s);
  madvise = λ a n f s. if advises then (ok tt, s) else (err 22, s);
  mlock = λ a n s. (ok tt, s);
  munlock = λ a n s. (ok tt, s);
  sysconf_page_size = λ s. (ok (some 4096), s);
  sys_icache_invalidate = λ a n s. s;
  clear_cache = λ a e s. s;
}

pub map_bit-index : (f g : MapFlag) → (map_bit f == map_bit g) ≡ (index f == index g)
map_bit-index map_shared map_shared = refl
map_bit-index map_shared _ = refl
map_bit-index map_private map_shared = refl
map_bit-index map_private _ = refl
map_bit-index map_fixed map_shared = refl
map_bit-index map_fixed _ = refl
map_bit-index map_anonymous map_shared = refl
map_bit-index map_anonymous _ = refl
map_bit-index map_populate map_shared = refl
map_bit-index map_populate _ = refl
map_bit-index map_noreserve map_shared = refl
map_bit-index map_noreserve _ = refl
map_bit-index map_hugetlb map_shared = refl
map_bit-index map_hugetlb _ = refl
map_bit-index map_aligned_super map_shared = refl
map_bit-index map_aligned_super _ = refl
map_bit-index map_locked map_shared = refl
map_bit-index map_locked _ = refl
map_bit-index map_wired map_shared = refl
map_bit-index map_wired _ = refl
map_bit-index map_stack map_shared = refl
map_bit-index map_stack _ = refl
map_bit-index map_conceal map_shared = refl
map_bit-index map_conceal _ = refl
map_bit-index map_jit map_shared = refl
map_bit-index map_jit _ = refl

pub huge_flag-pow :
    (h : HugeFlag) (f : MapFlag)
    → native_bitflags.contains (huge_log2 h * 2 ^ 26) (2 ^ map_bit f) ≡ false
huge_flag-pow map_huge_64kb map_shared = refl
huge_flag-pow map_huge_64kb _ = refl
huge_flag-pow map_huge_512kb map_shared = refl
huge_flag-pow map_huge_512kb _ = refl
huge_flag-pow map_huge_1mb map_shared = refl
huge_flag-pow map_huge_1mb _ = refl
huge_flag-pow map_huge_2mb map_shared = refl
huge_flag-pow map_huge_2mb _ = refl
huge_flag-pow map_huge_8mb map_shared = refl
huge_flag-pow map_huge_8mb _ = refl
huge_flag-pow map_huge_16mb map_shared = refl
huge_flag-pow map_huge_16mb _ = refl
huge_flag-pow map_huge_32mb map_shared = refl
huge_flag-pow map_huge_32mb _ = refl
huge_flag-pow map_huge_256mb map_shared = refl
huge_flag-pow map_huge_256mb _ = refl
huge_flag-pow map_huge_512mb map_shared = refl
huge_flag-pow map_huge_512mb _ = refl
huge_flag-pow map_huge_1gb map_shared = refl
huge_flag-pow map_huge_1gb _ = refl
huge_flag-pow map_huge_2gb map_shared = refl
huge_flag-pow map_huge_2gb _ = refl
huge_flag-pow map_huge_16gb map_shared = refl
huge_flag-pow map_huge_16gb _ = refl

module _ (os : Os) (advises : Bool) where
  abbrev pub simulated-HasFlags : HasFlags (simulated os advises)
  simulated-HasFlags = record {
    bits = native_bitflags-IsLawful;
    map_bit = map_bit;
    map_flag-pow = λ f. refl;
    map_bit-index = map_bit-index;
    huge_flag-pow = huge_flag-pow;
  }

  pub simulated-HasProtections : HasProtections (simulated os advises)
  simulated-HasProtections = record {
    bits = native_bitflags-IsLawful;
    read_bit = 0;
    write_bit = 1;
    exec_bit = 2;
    prot_none-empty = refl;
    prot_read-pow = refl;
    prot_write-pow = refl;
    prot_exec-pow = refl;
    read-ne-write = omega arith;
    read-ne-exec = omega arith;
    write-ne-exec = omega arith;
  }

  unfoldable pub simulated-IsKernel : IsKernel (simulated os advises)
  simulated-IsKernel = record {
    prot_at = λ s x. if ltb x s.next then s.prot x else none;
    mmap-ok = λ a n prot flags fd offset x h lo hi. ground arith;
    mmap-any = λ a n prot flags fd offset s x. ground arith;
    munmap-ok = λ a n x h lo hi. ground arith;
    munmap-any = λ a n x s. ground arith;
    mprotect-ok = λ a n prot x h lo hi. ground arith;
    mprotect-any = λ a n prot s x. ground arith;
    msync-any = λ a n f x s. refl;
    madvise-any = λ a n f x s. ground arith;
    mlock-any = λ a n x s. refl;
    munlock-any = λ a n x s. refl;
    sys_icache_invalidate-any = λ a n x s. refl;
    clear_cache-any = λ a e x s. refl;
  }

  pub simulated-HasPages : HasPages (simulated os advises) simulated-IsKernel
  unfolding simulated-IsKernel
  simulated-HasPages = record {
    page = 4096;
    mmap-keeps = λ a n prot flags fd offset s x free h. ground arith;
    mmap-fresh = λ a n prot flags fd offset x free h lo hi. ground arith;
    munmap-elsewhere = λ a n x s apart. ground arith;
    mprotect-elsewhere = λ a n prot x s apart. ground arith;
  }
