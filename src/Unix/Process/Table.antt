-- ===== src/Unix/Process/Table.antt =====
-- A process that uses src/os_impl/unix.rs and keeps a table of its mappings, with the access that it
-- last asked for each with success: an abstract view of its memory.
use mmap_rs.Common.{◌≡◌, Option, none, some, List, ◌∷◌, ◌++◌}
use mmap_rs.Error.{Error, ok, err}
use mmap_rs.Unix.Platform.{Platform}
use mmap_rs.Unix.Options.{MmapOptions}
use mmap_rs.Unix.Mapping.{Mmap, drop}
use mmap_rs.Unix.Map.Protection.{Access, map_as, make_as}
use mmap_rs.Unix.Process.{Use, run}
use mmap_rs.Unix.Process.Mapped.{LacksFixed}

-- A mapping with the access that was last given to it, unknown after a change that failed.
abbrev pub Entry : Type 0
Entry = Mmap × Option Access

pub record Tracked (p : Platform) : Type 0 where
  pub os : p.State
  pub table : List Entry

module _ (p : Platform) where
  -- The options of a new mapping lack the flag `MAP_FIXED`; all else is free, and any call may
  -- fail.
  pub data Step (w : Tracked p) : Tracked p → Type 0 where
    maps :
        (a : Access) (o : MmapOptions) (m : Mmap) (t : p.State)
        → LacksFixed p o
        → map_as p a o w.os ≡ (ok m, t)
        → Step w (record { os = t; table = (m, some a) ∷ w.table })
    map_fails :
        (a : Access) (o : MmapOptions) (e : Error) (t : p.State)
        → LacksFixed p o
        → map_as p a o w.os ≡ (err e, t)
        → Step w (record { os = t; table = w.table })
    changes :
        (a : Access) (m : Mmap) (old : Option Access) (before after : List Entry) (t : p.State)
        → w.table ≡ before ++ (m, old) ∷ after
        → make_as p a m w.os ≡ (ok tt, t)
        → Step w (record { os = t; table = before ++ (m, some a) ∷ after })
    change_fails :
        (a : Access) (m : Mmap) (old : Option Access) (before after : List Entry) (e : Error)
        (t : p.State)
        → w.table ≡ before ++ (m, old) ∷ after
        → make_as p a m w.os ≡ (err e, t)
        → Step w (record { os = t; table = before ++ (m, none) ∷ after })
    uses :
        (u : Use) (m : Mmap) (old : Option Access) (before after : List Entry)
        → w.table ≡ before ++ (m, old) ∷ after
        → Step w (record { os = run p u m w.os; table = w.table })
    drops :
        (m : Mmap) (old : Option Access) (before after : List Entry)
        → w.table ≡ before ++ (m, old) ∷ after
        → Step w (record { os = drop p m w.os; table = before ++ after })

  pub data Reach (w : Tracked p) : Tracked p → Type 0 where
    here : Reach w w
    next : {u v : Tracked p} → Reach w u → Step u v → Reach w v
