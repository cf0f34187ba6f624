-- ===== src/Unix/Process/Spares.antt =====
-- Which calls of src/os_impl/unix.rs leave the protection of a byte that is mapped.
use mmap_rs.Common.{ℕ, ◌+◌, ◌≤◌, ◌<◌, ◌≡◌, ◌⊎◌, ap, ◌∙◌, true, Option, is_some}
use mmap_rs.Error.Preserves.{Preserves, raise-Preserves, if-Preserves}
use mmap_rs.Unix.Platform.{Platform}
use mmap_rs.Unix.Libc.{HasFlags}
use mmap_rs.Unix.Options.{MmapOptions}
use mmap_rs.Unix.Kernel.{IsKernel}
use mmap_rs.Unix.Kernel.Pages.{span, HasPages}
use mmap_rs.Unix.Mapping
use mmap_rs.Unix.Mapping.{Mmap, do_make, drop}
use mmap_rs.Unix.Map
use mmap_rs.Unix.Map.{do_map}
use mmap_rs.Unix.Map.Protection.{Access, no_access, exec_mutable, map_as, make_as}
use mmap_rs.Unix.Process.{Use, run}
use mmap_rs.Unix.Process.Mapped.{LacksFixed, Inside, outside_range, unfixed}
use mmap_rs.Unix.Calls.{Looks, do_map-Preserves, do_make-Preserves, run-holds}

-- The byte has this protection, or is not mapped.
abbrev pub IsAt : (p : Platform) → IsKernel p → ℕ → Option ℕ → p.State → Type 0
IsAt p k x v s = k.prot_at s x ≡ v

module _ (p : Platform) (k : IsKernel p) (c : HasFlags p) (pages : HasPages p k) (x : ℕ)
    (v : Option ℕ) where
  pub IsAt-Looks : Looks p k (IsAt p k x v)
  IsAt-Looks = record { respects = λ s t same h. same x ∙ h }

  do_map-IsAt :
      (o : MmapOptions) (prot : ℕ)
      → LacksFixed p o
      → is_some v ≡ true
      → Preserves (IsAt p k x v) (do_map p o prot)
  do_map-IsAt o prot free there = do_map-Preserves p k IsAt-Looks o prot (record {
    holds_after = λ s h.
        pages.mmap-keeps _ _ _ _ _ _ s x (unfixed p k c pages o free) (ap is_some h ∙ there) ∙ h;
  })

  pub map_as-IsAt :
      (a : Access) (o : MmapOptions)
      → LacksFixed p o
      → is_some v ≡ true
      → Preserves (IsAt p k x v) (map_as p a o)
  unfolding Map.map_none Map.map Map.map_exec Map.map_mut Map.map_exec_mut
  map_as-IsAt exec_mutable o free there =
      if-Preserves _ _ _ (do_map-IsAt o _ free there) (raise-Preserves _)
  map_as-IsAt no_access o free there = do_map-IsAt o _ free there
  map_as-IsAt _ o free there = do_map-IsAt o _ free there

  module _ (m : Mmap) (outside : Inside p k c pages x m → ⊥) where
    apart : (x < m.ptr) ⊎ (m.ptr + span pages.page m.size ≤ x)
    apart = outside_range outside

    do_make-IsAt : (prot : ℕ) → Preserves (IsAt p k x v) (do_make p m prot)
    do_make-IsAt prot =
        do_make-Preserves p k IsAt-Looks m prot
          (record { holds_after = λ s h. pages.mprotect-elsewhere m.ptr m.size prot x s apart ∙ h })

    pub make_as-IsAt : (a : Access) → Preserves (IsAt p k x v) (make_as p a m)
    unfolding Mapping.make_none Mapping.make_read_only Mapping.make_exec Mapping.make_mut
        Mapping.make_exec_mut
    make_as-IsAt exec_mutable = if-Preserves _ _ _ (do_make-IsAt _) (raise-Preserves _)
    make_as-IsAt no_access = do_make-IsAt _
    make_as-IsAt _ = do_make-IsAt _

    pub drop-IsAt : (s : p.State) → IsAt p k x v s → IsAt p k x v (drop p m s)
    unfolding drop
    drop-IsAt s h = pages.munmap-elsewhere m.ptr m.size x s apart ∙ h

  pub run-IsAt : (u : Use) (m : Mmap) (s : p.State) → IsAt p k x v s → IsAt p k x v (run p u m s)
  run-IsAt u m s h = run-holds p k IsAt-Looks u m s h
