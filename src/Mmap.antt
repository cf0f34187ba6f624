-- ===== src/Mmap.antt =====
-- The three mapping types of src/mmap.rs, over a backend. Their methods come from one macro,
-- `mmap_impl!`: the section below takes the type and its field `inner`.
pub mod Options
pub mod Slices
pub mod MutSlices
pub mod Handle
pub mod Ownership
pub mod Gated
use mmap_rs.Common.{ℕ, Option}
use mmap_rs.Error.{Error, Result, ok, err, Exec, ◌>>◌}
use mmap_rs.Backend.{Range, Backend}

pub record MmapNone (b : Backend) : Type 0 where
  pub inner : b.Mapping

pub record Mmap (b : Backend) : Type 0 where
  pub inner : b.Mapping

pub record MmapMut (b : Backend) : Type 0 where
  pub inner : b.Mapping

module _ (b : Backend) {T : Type 0} (inner : T → b.Mapping) (self : T) where
  unfoldable pub file : Option b.File
  file = b.file (inner self)

  unfoldable pub as_ptr : ℕ
  as_ptr = b.as_ptr (inner self)

  unfoldable pub size : ℕ
  size = b.size (inner self)

  unfoldable pub lock : Exec b.State Error Unit
  lock = b.lock (inner self)

  unfoldable pub unlock : Exec b.State Error Unit
  unlock = b.unlock (inner self)

  unfoldable pub flush : Range → Option (Exec b.State Error Unit)
  flush range = b.flush (inner self) range

  unfoldable pub flush_async : Range → Option (Exec b.State Error Unit)
  flush_async range = b.flush_async (inner self) range

  unfoldable pub flush_icache : Exec b.State Error Unit
  flush_icache = b.flush_icache (inner self)

  -- `if let Err(e) = … { return Err((self, e)); }`, and then the new type around `self.inner`.
  abbrev pub retype :
      {U : Type 0} → U → Result Error Unit × b.State → Result (T × Error) U × b.State
  retype new (ok _, s) = (ok new, s)
  retype new (err e, s) = (err (self, e), s)

  unfoldable pub make_none : Exec b.State (T × Error) (MmapNone b)
  make_none s = retype (record { inner = inner self }) (b.make_none (inner self) s)

  unfoldable pub make_read_only : Exec b.State (T × Error) (Mmap b)
  make_read_only s = retype (record { inner = inner self }) (b.make_read_only (inner self) s)

  unfoldable pub make_exec : Exec b.State (T × Error) (Mmap b)
  make_exec s =
      retype (record { inner = inner self })
        ((b.make_exec (inner self) >> b.flush_icache (inner self)) s)

  unfoldable pub make_exec_no_flush : Exec b.State (T × Error) (Mmap b)
  make_exec_no_flush s = retype (record { inner = inner self }) (b.make_exec (inner self) s)

  unfoldable pub make_mut : Exec b.State (T × Error) (MmapMut b)
  make_mut s = retype (record { inner = inner self }) (b.make_mut (inner self) s)

  unfoldable pub make_exec_mut : Exec b.State (T × Error) (MmapMut b)
  make_exec_mut s = retype (record { inner = inner self }) (b.make_exec_mut (inner self) s)
