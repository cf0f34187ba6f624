-- ===== src/MacOs/Open.antt =====
-- `MemoryAreas::open` of src/os_impl/macos.rs: the task port of a process, and the iterator that
-- keeps it.
pub mod Listed
pub mod Examples
use mmap_rs.Common.{ℕ, ℤ, ◌%◌, ◌^◌, Option, none, some, List, unwrap_or, as_signed}
use mmap_rs.Error.{Error, mach, Result, ok, Exec, pure, convert, ◌>>=◌}
use mmap_rs.Bitflags.{Bitflags}
use mmap_rs.Areas.{MemoryArea}
use mmap_rs.Areas.Platform.{Platform}
use mmap_rs.MacOs
use mmap_rs.MacOs.{KernReturn, Task}

pub record MemoryAreas : Type 0 where
  pub pid : ℕ
  pub task : ℕ
  pub address : ℕ

-- The kernel. Its tasks do not change while they are listed.
pub record Kernel : Type 1 where
  pub width : ℕ
  pub bitflags : Bitflags
  pub vm_prot_read : ℕ
  pub vm_prot_write : ℕ
  pub vm_prot_execute : ℕ
  -- by the task, or the process, and the address
  pub mach_vm_region : ℕ → ℕ → KernReturn
  pub proc_regionfilename : ℕ → ℕ → List ℕ
  pub State : Type 0
  pub mach_task_self : State → ℕ
  -- `getpid().as_raw() as u32`
  pub getpid : State → ℕ
  -- task_for_pid(target, pid, &task): the port that it writes, or a failure
  pub task_for_pid : ℕ → ℤ → Exec State ℕ ℕ

module _ (k : Kernel) where
  -- The target `task` is given as the place of the result as well.
  abbrev pub task_for : ℕ → Option ℕ → Exec k.State Error ℕ
  task_for task none = pure task
  task_for task (some pid) = convert mach (k.task_for_pid task (as_signed 32 pid))

  abbrev pub with_task : Option ℕ → ℕ → Exec k.State Error MemoryAreas
  with_task pid task s =
      (ok (record { pid = unwrap_or pid (k.getpid s); task = task; address = 0 }), s)

  unfoldable pub open_task : Option ℕ → Exec k.State Error MemoryAreas
  open_task pid s = (task_for (k.mach_task_self s) pid >>= with_task pid) s

  -- The task that the iterator keeps, with the paths of the process that it keeps.
  unfoldable pub task_of : MemoryAreas → Task
  task_of areas = record {
    width = k.width;
    bitflags = k.bitflags;
    vm_prot_read = k.vm_prot_read;
    vm_prot_write = k.vm_prot_write;
    vm_prot_execute = k.vm_prot_execute;
    mach_vm_region = k.mach_vm_region areas.task;
    proc_regionfilename = k.proc_regionfilename areas.pid;
  }

  unfoldable pub next_area : MemoryAreas → Option (Result Error MemoryArea) × MemoryAreas
  next_area areas =
      let (item, address) = MacOs.next (task_of areas) areas.address in
      (item, record areas { address = address })

  -- src/os_impl/macos.rs as the `platform` of src/areas.rs.
  abbrev pub macos : Platform
  macos = record {
    State = k.State;
    Inner = MemoryAreas;
    open_inner = λ pid s. some (open_task pid s);
    next_inner = next_area;
  }
