-- ===== src/Unix/Handles/Held.antt =====
-- The memory of a process that uses src/mmap.rs over src/os_impl/unix.rs, and the slices of its
-- mappings.
use mmap_rs.Common.{refl, some, All, Pairwise}
use mmap_rs.Mmap.Options.{MmapOptions}
use mmap_rs.Mmap.Handle.{Handle, Conversion, inner, convert_to}
use mmap_rs.Unix.Platform.{Platform}
use mmap_rs.Unix.Libc.{HasFlags}
use mmap_rs.Unix.Kernel.{IsKernel}
use mmap_rs.Unix.Kernel.Pages.{HasPages}
use mmap_rs.Unix.Mapping.{Mmap, drop}
use mmap_rs.Unix.Map.Protection.{Access}
use mmap_rs.Unix.Opened.{open_as}
use mmap_rs.Unix.Process.{Use, run}
use mmap_rs.Unix.Process.Mapped.{LacksFixed}
use mmap_rs.Unix.Process.Owned.{Apart, Covered, flip-Apart}
use mmap_rs.Unix.Process.Spares.{IsAt-Looks, map_as-IsAt, make_as-IsAt, drop-IsAt, run-IsAt}
use mmap_rs.Unix.Process.Tracked.{Spared, Spared-Covered, Spared-Current}
use mmap_rs.Unix.Handles.{Owner}
use mmap_rs.Unix.Handles.Calls.{open_as-Preserves, convert_to-Preserves}
use mmap_rs.Unix.Handles.Usable.{Granted}
use mmap_rs.Unix.Backend.{unix}

module _ (p : Platform) (k : IsKernel p) (c : HasFlags p) (pages : HasPages p k) where
  -- The pages of the mapping are mapped, with what its type lets its user do.
  abbrev pub Holds : p.State → Handle (unix p) → Type 0
  Holds s h = Covered p k c pages s (inner (unix p) h) × Granted p k s h

  abbrev pub ApartHandles : Handle (unix p) → Handle (unix p) → Type 0
  ApartHandles e f = Apart p k c pages (inner (unix p) e) (inner (unix p) f)

  pub record IsHeld (w : Owner p) : Type 0 where
    pub holds : All (Holds w.os) w.owned
    pub apart : Pairwise ApartHandles w.owned

  Spared-Holds :
      (s t : p.State) (h : Handle (unix p))
      → Spared p k c pages s t (inner (unix p) h)
      → Holds s h
      → Holds t h
  Spared-Holds s t h spared (covered, g) = (
    Spared-Covered p k c pages s t (inner (unix p) h) spared covered,
    record {
      access = g.access;
      has_prot =
          Spared-Current p k c pages s t (inner (unix p) h) (some g.access) spared covered
            g.has_prot;
      grants = g.grants;
    },
  )

  pub flip-ApartHandles : (e f : Handle (unix p)) → ApartHandles e f → ApartHandles f e
  flip-ApartHandles e f apart = flip-Apart p k c pages (inner (unix p) e) (inner (unix p) f) apart

  pub open_as-Holds :
      (a : Access) (o : MmapOptions (unix p)) (s : p.State) (h : Handle (unix p))
      → LacksFixed p o.inner
      → Holds s h
      → Holds (open_as (unix p) a o s).1 h
  open_as-Holds a o s h free holds =
      Spared-Holds s (open_as (unix p) a o s).1 h
        (λ x inside there.
          (open_as-Preserves p k a o
              (map_as-IsAt p k c pages x (k.prot_at s x) a o.inner free there)).holds_after
            s refl)
        holds

  pub convert_to-Holds :
      (v : Conversion) (e : Handle (unix p)) (s : p.State) (h : Handle (unix p))
      → Holds s h
      → ApartHandles e h
      → Holds (convert_to (unix p) v e s).1 h
  convert_to-Holds v e s h holds apart =
      Spared-Holds s (convert_to (unix p) v e s).1 h
        (λ x inside there.
          (convert_to-Preserves p k v e (IsAt-Looks p k c pages x (k.prot_at s x)) (
              make_as-IsAt p k c pages x (k.prot_at s x) (inner (unix p) e)
                (λ in_e. apart x in_e inside))).holds_after
            s refl)
        holds

  pub drop-Holds :
      (m : Mmap) (s : p.State) (h : Handle (unix p))
      → Holds s h
      → Apart p k c pages m (inner (unix p) h)
      → Holds (drop p m s) h
  drop-Holds m s h holds apart =
      Spared-Holds s (drop p m s) h
        (λ x inside there.
          drop-IsAt p k c pages x (k.prot_at s x) m (λ in_m. apart x in_m inside) s refl)
        holds

  pub run-Holds :
      (u : Use) (m : Mmap) (s : p.State) (h : Handle (unix p)) → Holds s h → Holds (run p u m s) h
  run-Holds u m s h holds =
      Spared-Holds s (run p u m s) h
        (λ x inside there. run-IsAt p k c pages x (k.prot_at s x) u m s refl) holds
