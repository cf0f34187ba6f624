-- ===== src/MacOs/Open/Listed.antt =====
-- Whose memory a client of src/areas.rs lists over src/os_impl/macos.rs.
use mmap_rs.Common.{
  some-injective, ℕ, zero, suc, [], ◌∷◌, pos, ◌^◌, ◌<◌, ◌≡◌, refl, ap, ◌∙◌, Option, none, some,
  arith, as_signed, collect, unwrap_or, subst,
}
use mmap_rs.Error.{mach, ok}
use mmap_rs.Error.Inversion.{>>=-eq-ok, convert-eq-ok}
use mmap_rs.Areas.Platform
use mmap_rs.Areas.Platform.{open_areas, open_areas-eq-ok, collect-inner}
use mmap_rs.MacOs
use mmap_rs.MacOs.{KernReturn, Task}
use mmap_rs.MacOs.Open.{Kernel, MemoryAreas, task_for, open_task, task_of, next_area, macos}

-- What the code relies on of the kernel: a task port belongs to a process, that of `mach_task_self`
-- to the caller and that of `task_for_pid` to the process that was asked for; and `mach_vm_region`
-- answers for the process of the port.
pub record HasOwners (k : Kernel) : Type 0 where
  pub owner : ℕ → ℕ
  pub regions : ℕ → ℕ → KernReturn
  pub mach_vm_region-owner : (task a : ℕ) → k.mach_vm_region task a ≡ regions (owner task) a
  pub mach_task_self-owner : (s : k.State) → owner (k.mach_task_self s) ≡ k.getpid s
  pub task_for_pid-owner :
      (target pid : ℕ) (s : k.State) {port : ℕ} {t : k.State}
      → k.task_for_pid target (pos pid) s ≡ (ok port, t)
      → owner port ≡ pid

-- A process ID that is given is a positive `pid_t`.
abbrev pub IsPid : Option ℕ → Type 0
IsPid none = Unit
IsPid (some pid) = pid < 2 ^ 31

as_signed-pid : (pid : ℕ) → pid < 2 ^ 31 → as_signed 32 pid ≡ pos pid
as_signed-pid pid h = ground arith

module _ (k : Kernel) (o : HasOwners k) where
  -- The process, by its own regions and paths.
  abbrev pub process : ℕ → Task
  process pid = record {
    width = k.width;
    bitflags = k.bitflags;
    vm_prot_read = k.vm_prot_read;
    vm_prot_write = k.vm_prot_write;
    vm_prot_execute = k.vm_prot_execute;
    mach_vm_region = o.regions pid;
    proc_regionfilename = k.proc_regionfilename pid;
  }

  task_of-process :
      (areas : MemoryAreas) → o.owner areas.task ≡ areas.pid → task_of k areas ≡ process areas.pid
  unfolding task_of
  task_of-process areas owned = λ i. record {
    width = k.width;
    bitflags = k.bitflags;
    vm_prot_read = k.vm_prot_read;
    vm_prot_write = k.vm_prot_write;
    vm_prot_execute = k.vm_prot_execute;
    mach_vm_region = λ a. (o.mach_vm_region-owner areas.task a ∙ ap (λ q. o.regions q a) owned) i;
    proc_regionfilename = k.proc_regionfilename areas.pid;
  }

  -- The iterator keeps its task and its process.
  collect-task :
      (fuel : ℕ) (areas : MemoryAreas)
      → collect (next_area k) fuel areas ≡ collect (MacOs.next (task_of k areas)) fuel areas.address
  unfolding next_area task_of
  collect-task zero areas = refl
  collect-task (suc fuel) areas = λ i. elim (MacOs.next (task_of k areas) areas.address).0 [
    | none ↦ []
    | some x ↦ x ∷ collect-task fuel (next_area k areas).1 i
  ]

  record IsOpened (pid : ℕ) (areas : MemoryAreas) : Type 0 where
    owned : o.owner areas.task ≡ areas.pid
    asked : areas.pid ≡ pid
    from_start : areas.address ≡ 0

  opened :
      (pid : Option ℕ) (s : k.State) {areas : MemoryAreas} {t : k.State}
      → IsPid pid
      → open_task k pid s ≡ (ok areas, t)
      → IsOpened (unwrap_or pid (k.getpid s)) areas
  unfolding open_task
  opened none s {areas} small h =
      let e : record { pid = k.getpid s; task = k.mach_task_self s; address = 0 } ≡ areas = cc in
      subst (IsOpened (k.getpid s)) e
        (record { owned = o.mach_task_self-owner s; asked = refl; from_start = refl })
  opened (some pid) s {areas} small h =
      let (task, s1, found, r) = >>=-eq-ok (task_for k (k.mach_task_self s) (some pid)) _ s h in
      let port =
        convert-eq-ok mach (k.task_for_pid (k.mach_task_self s) (as_signed 32 pid)) s found in
      let e : record { pid = pid; task = task; address = 0 } ≡ areas = cc in
      subst (IsOpened pid) e (record {
        owned =
            o.task_for_pid-owner (k.mach_task_self s) pid s (rw (as_signed-pid pid small) at port);
        asked = refl;
        from_start = refl;
      })

  -- Where a task port belongs to one process and the kernel answers for that: if on macOS
  -- `MemoryAreas::open` succeeds, for a process ID below 2^31 or for the caller, then a client
  -- that calls `next` any number of times gets what the regions and the paths of that process
  -- give, from the address 0 on.
  pub open_areas-process :
      (pid : Option ℕ) (s : k.State) {areas : Platform.MemoryAreas (macos k)} {t : k.State}
      → IsPid pid
      → open_areas (macos k) pid s ≡ some (ok areas, t)
      → (fuel : ℕ)
      → collect (Platform.next (macos k)) fuel areas
        ≡ collect (MacOs.next (process (unwrap_or pid (k.getpid s)))) fuel 0
  open_areas-process pid s {areas} small h fuel =
      let i = opened pid s small (some-injective _ _ (open_areas-eq-ok (macos k) pid s h)) in
      collect-inner (macos k) fuel areas
      ∙ collect-task fuel areas.inner
      ∙ ap (λ t. collect (MacOs.next t) fuel areas.inner.address)
          (task_of-process areas.inner i.owned)
      ∙ ap (λ pid. collect (MacOs.next (process pid)) fuel areas.inner.address) i.asked
      ∙ ap (collect (MacOs.next (process (unwrap_or pid (k.getpid s)))) fuel) i.from_start
