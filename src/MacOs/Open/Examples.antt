-- ===== src/MacOs/Open/Examples.antt =====
-- The theorem on `open` of src/os_impl/macos.rs at work: the task port of process `n` is `n + 100`,
-- and the caller is process 7.
use mmap_rs.Common.{pos, negsuc, ◌+◌, ◌-◌, ◌≡◌, refl, some, [], arith, collect}
use mmap_rs.Error.{ok, err}
use mmap_rs.Areas.Platform
use mmap_rs.Areas.Platform.{MemoryAreas, open_areas}
use mmap_rs.MacOs
use mmap_rs.MacOs.Examples.{task}
use mmap_rs.MacOs.Open.{Kernel, open_task, macos}
use mmap_rs.MacOs.Open.Listed.{HasOwners, process, open_areas-process}

abbrev kernel : Kernel
kernel = record {
  width = 64;
  bitflags = (task []).bitflags;
  vm_prot_read = 1;
  vm_prot_write = 2;
  vm_prot_execute = 4;
  mach_vm_region = λ port a. (task []).mach_vm_region a;
  proc_regionfilename = λ pid a. [];
  State = Unit;
  mach_task_self = λ s. 107;
  getpid = λ s. 7;
  task_for_pid = λ target pid s. elim pid [ pos n ↦ (ok (n + 100), s) | negsuc n ↦ (err 5, s) ];
}

kernel-HasOwners : HasOwners kernel
kernel-HasOwners = record {
  owner = λ port. port - 100;
  regions = λ pid a. (task []).mach_vm_region a;
  mach_vm_region-owner = λ port a. refl;
  mach_task_self-owner = λ s. refl;
  task_for_pid-owner = λ target pid s made. ground arith;
}

abbrev opened : MemoryAreas (macos kernel)
opened = record { inner = record { pid = 12; task = 112; address = 0 } }

open_areas-process_example :
    collect (Platform.next (macos kernel)) 3 opened
    ≡ collect (MacOs.next (process kernel kernel-HasOwners 12)) 3 0
unfolding open_areas open_task
open_areas-process_example =
    open_areas-process kernel kernel-HasOwners (some 12) tt {areas = opened} {t = tt} (omega arith)
      refl 3
