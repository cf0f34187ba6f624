-- ===== src/Unix/Handles.antt =====
-- A process that uses src/mmap.rs over src/os_impl/unix.rs: the state of the system, the mappings of
-- the three types that it owns, and the calls that it may make in any order.
pub mod Calls
pub mod Granted
pub mod Usable
pub mod Held
pub mod Safe
pub mod Examples
use mmap_rs.Common.{◌≡◌, List, [], ◌∷◌, ◌++◌}
use mmap_rs.Error.{Error, ok, err}
use mmap_rs.Mmap.Options.{MmapOptions}
use mmap_rs.Mmap.Handle.{Handle, Conversion, inner, convert_to}
use mmap_rs.Unix.Platform.{Platform}
use mmap_rs.Unix.Mapping.{drop}
use mmap_rs.Unix.Map.Protection.{Access}
use mmap_rs.Unix.Opened.{open_as}
use mmap_rs.Unix.Process.{Use, run}
use mmap_rs.Unix.Process.Mapped.{LacksFixed}
use mmap_rs.Unix.Backend.{unix}

pub record Owner (p : Platform) : Type 0 where
  pub os : p.State
  pub owned : List (Handle (unix p))

module _ (p : Platform) where
  abbrev pub start : p.State → Owner p
  start s = record { os = s; owned = [] }

  -- The options of a new mapping lack the flag `MAP_FIXED`. A mapping whose conversion fails is
  -- dropped where it is given back.
  pub data Step (w : Owner p) : Owner p → Type 0 where
    opens :
        (a : Access) (o : MmapOptions (unix p)) (h : Handle (unix p)) (t : p.State)
        → LacksFixed p o.inner
        → open_as (unix p) a o w.os ≡ (ok h, t)
        → Step w (record { os = t; owned = h ∷ w.owned })
    open_fails :
        (a : Access) (o : MmapOptions (unix p)) (e : Error) (t : p.State)
        → LacksFixed p o.inner
        → open_as (unix p) a o w.os ≡ (err e, t)
        → Step w (record { os = t; owned = w.owned })
    converts :
        (c : Conversion) (h h' : Handle (unix p)) (before after : List (Handle (unix p)))
        (t : p.State)
        → w.owned ≡ before ++ h ∷ after
        → convert_to (unix p) c h w.os ≡ (ok h', t)
        → Step w (record { os = t; owned = before ++ h' ∷ after })
    convert_fails :
        (c : Conversion) (h old : Handle (unix p)) (e : Error)
        (before after : List (Handle (unix p))) (t : p.State)
        → w.owned ≡ before ++ h ∷ after
        → convert_to (unix p) c h w.os ≡ (err (old, e), t)
        → Step w (record { os = drop p (inner (unix p) old) t; owned = before ++ after })
    uses :
        (u : Use) (h : Handle (unix p)) (before after : List (Handle (unix p)))
        → w.owned ≡ before ++ h ∷ after
        → Step w (record { os = run p u (inner (unix p) h) w.os; owned = w.owned })
    drops :
        (h : Handle (unix p)) (before after : List (Handle (unix p)))
        → w.owned ≡ before ++ h ∷ after
        → Step w (record { os = drop p (inner (unix p) h) w.os; owned = before ++ after })

  pub data Reach (w : Owner p) : Owner p → Type 0 where
    here : Reach w w
    next : {u v : Owner p} → Reach w u → Step u v → Reach w v
