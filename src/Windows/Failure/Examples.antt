-- ===== src/Windows/Failure/Examples.antt =====
-- The theorem on the failure of `do_map` of src/os_impl/windows.rs at work: a system that does not
-- change protections.
use mmap_rs.Common.{ℕ, ◌+◌, ◌≤◌, ◌<◌, ◌≡◌, refl, true, false, arith, is_some}
use mmap_rs.Error.{io, err}
use mmap_rs.Bitflags.Native.{native_bitflags-IsLawful}
use mmap_rs.Windows.Platform.{Platform}
use mmap_rs.Windows.Kernel.{IsKernel}
use mmap_rs.Windows.Map.{do_map, check_protection, widest, create, view}
use mmap_rs.Windows.Failure.{HasViews, do_map-leaves_view}
use mmap_rs.Windows.Simulated.{Memory, simulated}
use mmap_rs.Windows.Examples.{empty, of_file}

abbrev stubborn : Platform
stubborn = record simulated { virtual_protect = λ a n protect s. (false, s) }

unfoldable stubborn-IsKernel : IsKernel stubborn
stubborn-IsKernel = record {
  protect_at = λ s x. s.protect x;
  virtual_protect-true = λ a n protect x h lo hi. cc;
  bits = native_bitflags-IsLawful;
  commit_bit = 12;
  mem_commit-pow = refl;
  virtual_alloc-some = λ a n type protect x commits h there lo hi. ground arith;
  release_bit = 15;
  mem_release-pow = refl;
  virtual_free-sized = λ a n type s sized has x. ground arith;
}

stubborn-HasViews : HasViews stubborn stubborn-IsKernel
unfolding stubborn-IsKernel
stubborn-HasViews = record {
  map_view_of_file-some = λ h access high low n x made there lo hi. ground arith;
  close_handle-any = λ h s x. ground arith;
  virtual_protect-false = λ a n protect x h. ground arith;
}

-- The state that the creation of the mapping object leaves, and that of the view.
abbrev made : Memory
made = (create stubborn of_file (record { raw_handle = 12 }) 0x40 empty).1

abbrev left : Memory
left = (view stubborn 8 0x26 0 8192 made).1

do_map-leaves_view_example :
    (do_map stubborn of_file 8 empty ≡ (err (io 87), left))
    × ((x : ℕ)
        → 65536 ≤ x
        → x < 65536 + 8192
        → is_some (stubborn-IsKernel.protect_at left x) ≡ true)
unfolding check_protection widest
do_map-leaves_view_example =
    do_map-leaves_view stubborn stubborn-IsKernel stubborn-HasViews of_file 8 empty
      {file = record { raw_handle = 12 }} {offset = 0} {h = 8} {q = 65536} {s1 = made} {s2 = left}
      {t = left} refl refl refl (omega arith) refl
