-- ===== src/Unix/Process.antt =====
-- A process that uses the mappings of src/os_impl/unix.rs: the state of the system, the mappings
-- that it owns, and the calls that it may make in any order.
pub mod Exclusive
pub mod Mapped
pub mod Owned
pub mod Drained
pub mod Spares
pub mod Table
pub mod Tracked
pub mod Examples
use mmap_rs.Common.{◌≡◌, Option, none, some, List, ◌∷◌, ◌++◌}
use mmap_rs.Error.{Error, ok, err, Exec}
use mmap_rs.Backend.{Range}
use mmap_rs.Unix.Platform.{Platform}
use mmap_rs.Unix.Options.{MmapOptions}
use mmap_rs.Unix.Mapping
use mmap_rs.Unix.Mapping.{Mmap, lock, unlock, flush, flush_async, flush_icache, drop}
use mmap_rs.Unix.Map.Protection.{Access, map_as, make_as}

pub record Process (p : Platform) : Type 0 where
  pub os : p.State
  pub live : List Mmap

-- The methods of a mapping that do not ask for a protection.
pub data Use : Type 0 where
  locks unlocks flushes_icache : Use
  flushes flushes_async : Range → Use

module _ (p : Platform) where
  -- A flush that panics has made no call.
  abbrev pub run_flush : Option (Exec p.State Error Unit) → p.State → p.State
  run_flush none s = s
  run_flush (some call) s = (call s).1

  unfoldable pub run : Use → Mmap → p.State → p.State
  run locks m s = (lock p m s).1
  run unlocks m s = (unlock p m s).1
  run flushes_icache m s = (flush_icache p m s).1
  run (flushes r) m s = run_flush (flush p m r) s
  run (flushes_async r) m s = run_flush (flush_async p m r) s

-- The options of a new mapping are among those `allowed`; all else is free, and any call may fail.
module _ (p : Platform) (allowed : MmapOptions → Type 0) where
  pub data Step (w : Process p) : Process p → Type 0 where
    maps :
        (a : Access) (o : MmapOptions) (m : Mmap) (t : p.State)
        → allowed o
        → map_as p a o w.os ≡ (ok m, t)
        → Step w (record { os = t; live = m ∷ w.live })
    map_fails :
        (a : Access) (o : MmapOptions) (e : Error) (t : p.State)
        → allowed o
        → map_as p a o w.os ≡ (err e, t)
        → Step w (record { os = t; live = w.live })
    changes :
        (a : Access) (m : Mmap) (before after : List Mmap)
        → w.live ≡ before ++ m ∷ after
        → Step w (record { os = (make_as p a m w.os).1; live = w.live })
    uses :
        (u : Use) (m : Mmap) (before after : List Mmap)
        → w.live ≡ before ++ m ∷ after
        → Step w (record { os = run p u m w.os; live = w.live })
    drops :
        (m : Mmap) (before after : List Mmap)
        → w.live ≡ before ++ m ∷ after
        → Step w (record { os = drop p m w.os; live = before ++ after })

  pub data Reach (w : Process p) : Process p → Type 0 where
    here : Reach w w
    next : {u v : Process p} → Reach w u → Step u v → Reach w v
