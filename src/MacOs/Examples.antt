-- ===== src/MacOs/Examples.antt =====
-- The theorems on src/os_impl/macos.rs at work: a task with one region, whose path is no UTF-8.
use mmap_rs.Common.{ℕ, ◌≡◌, refl, none, List, [], ◌∷◌, arith, ltb, if◌then◌else◌, collect}
use mmap_rs.Error.{utf8, err}
use mmap_rs.Bitflags.Native.{native_bitflags, native_bitflags-IsLawful}
use mmap_rs.Areas.{MemoryArea, start, end}
use mmap_rs.Utf8
use mmap_rs.MacOs.{Region, kern_success, kern_invalid_address, Task, saturating_add, area_of, next}
use mmap_rs.MacOs.Order.{IsDisjoint, Ascending, collect-Ascending}
use mmap_rs.MacOs.Regions.{IsTask, collect-stuck, Describes, next-Describes}

abbrev region : Region
region = record { address = 4096; size = 4096; protection = 1; shared = 0; offset = 0 }

abbrev pub task : List ℕ → Task
task path = record {
  width = 64;
  bitflags = native_bitflags;
  vm_prot_read = 1;
  vm_prot_write = 2;
  vm_prot_execute = 4;
  mach_vm_region = λ a. if ltb a 8192 then kern_success region else kern_invalid_address;
  proc_regionfilename = λ a. path;
}

task-IsTask : (path : List ℕ) → IsTask (task path)
task-IsTask path = record {
  ends_behind = λ a h. ground arith;
  inside = λ a h. ground arith;
  again = λ a h. ground arith;
}

collect-stuck_example :
    collect (next (task (0xff ∷ []))) 3 4096 ≡ err (utf8 0) ∷ err (utf8 0) ∷ err (utf8 0) ∷ []
unfolding next Utf8.from_utf8
collect-stuck_example =
    collect-stuck (task (0xff ∷ [])) (task-IsTask (0xff ∷ [])) 0 {e = utf8 0} {b = 4096} refl 3

abbrev listed : MemoryArea
listed = area_of (task []) region none

task-IsDisjoint : (path : List ℕ) → IsDisjoint (task path)
task-IsDisjoint path = record { behind = λ a is r at. ground arith }

collect-Ascending_example : Ascending 0 (collect (next (task [])) 3 0)
collect-Ascending_example =
    collect-Ascending (task []) (task-IsTask []) (task-IsDisjoint []) 3 0 (λ r is. omega arith)

next-Describes_example :
    (r : Region) × (kern_success region ≡ kern_success r) × Describes (task []) listed r
unfolding next start end saturating_add
next-Describes_example =
    next-Describes (task []) native_bitflags-IsLawful 0 {area = listed} {b = 8192} refl
