-- ===== src/Windows/Simulated.antt =====
-- A system for examples: Windows on x86-64 with the constants of its headers, which keeps the
-- protection of each address and counts handles. It meets what the code relies on.
use Prim.Native.Nat.{◌-◌}
use mmap_rs.Common.{
  ℕ, suc, ◌+◌, refl, true, false, ◌&&◌, Option, none, some, arith, ltb, leb, ◌==◌, if◌then◌else◌,
}
use mmap_rs.Error.{ok}
use mmap_rs.Bitflags.Native.{native_bitflags, native_bitflags-IsLawful}
use mmap_rs.Windows.Platform.{Constants, Platform}
use mmap_rs.Windows.Kernel.{IsKernel, HasHandles}

abbrev pub windows_constants : Constants
windows_constants = record {
  page_noaccess = 0x01;
  page_readonly = 0x02;
  page_readwrite = 0x04;
  page_writecopy = 0x08;
  page_execute = 0x10;
  page_execute_read = 0x20;
  page_execute_readwrite = 0x40;
  page_execute_writecopy = 0x80;
  sec_large_pages = 0x80000000;
  file_map_read = 4;
  file_map_write = 2;
  file_map_execute = 0x20;
  file_map_large_pages = 0x20000000;
  mem_commit = 0x1000;
  mem_reserve = 0x2000;
  mem_large_pages = 0x20000000;
  mem_decommit = 0x4000;
  mem_release = 0x8000;
  mem_private = 0x20000;
}

pub record Memory : Type 0 where
  pub next : ℕ
  pub handles : ℕ
  pub protect : ℕ → Option ℕ

abbrev paint : Memory → ℕ → ℕ → Option ℕ → Memory
paint s a n v = record s { protect = λ x. if leb a x && ltb x (a + n) then v else s.protect x }

-- Handles are 0, which is invalid, or 8.
abbrev pub simulated : Platform
simulated = record {
  pointer_width = 64;
  is_arm = false;
  bitflags = native_bitflags;
  constants = windows_constants;
  State = Memory;
  last_os_error = λ s. 87;
  sync_data = λ f s. (ok tt, s);
  virtual_lock = λ a n s. (true, s);
  virtual_unlock = λ a n s. (true, s);
  flush_view_of_file = λ a n s. (true, s);
  virtual_protect = λ a n protect s. (true, paint s a n (some protect));
  flush_instruction_cache = λ a n s. (true, s);
  unmap_view_of_file = λ a s. (true, s);
  virtual_free = λ a n type s. if n == 0 then (true, paint s a 4096 none) else (false, s);
  virtual_alloc = λ a n type protect s.
      let v = if native_bitflags.contains type 0x1000 then some protect else none in
      (s.next, record (paint s s.next n v) { next = s.next + n });
  create_file_mapping = λ f protect high low s. (ok 8, record s { handles = suc s.handles });
  is_invalid = λ h. h == 0;
  map_view_of_file = λ h access high low n s.
      (s.next, record (paint s s.next n (some access)) { next = s.next + n });
  close_handle = λ h s. if h == 0 then (false, s) else (true, record s { handles = s.handles - 1 });
  system_info = λ s. (4096, 65536);
}

unfoldable pub simulated-IsKernel : IsKernel simulated
simulated-IsKernel = record {
  protect_at = λ s x. s.protect x;
  virtual_protect-true = λ a n protect x h lo hi. ground arith;
  bits = native_bitflags-IsLawful;
  commit_bit = 12;
  mem_commit-pow = refl;
  virtual_alloc-some = λ a n type protect x commits h ne lo hi. ground arith;
  release_bit = 15;
  mem_release-pow = refl;
  virtual_free-sized = λ a n type s ne has x. ground arith;
}

unfoldable pub simulated-HasHandles : HasHandles simulated
simulated-HasHandles = record {
  handles = λ s. s.handles;
  create-ok = λ f protect high low h valid. ground arith;
  create-invalid = λ f protect high low h invalid. ground arith;
  create-err = λ f protect high low h. cc;
  close-valid = λ h s valid. ground arith;
  close-invalid = λ h s invalid. ground arith;
  map_view_of_file-any = λ h access high low n s. refl;
  virtual_protect-any = λ a n protect s. refl;
  virtual_alloc-any = λ a n type protect s. refl;
}
