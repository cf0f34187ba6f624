-- ===== src/Mmap/Options.antt =====
-- `MmapOptions` of src/mmap.rs: each method passes on to the backend.
pub mod Order
use mmap_rs.Common.{ℕ}
use mmap_rs.Error.{Error, Exec, pure, ◌>>=◌}
use mmap_rs.Flags.PageSize.{PageSize}
use mmap_rs.Backend.{Backend}
use mmap_rs.Mmap.{MmapNone, Mmap, MmapMut}

pub record MmapOptions (b : Backend) : Type 0 where
  pub inner : b.Options

module _ (b : Backend) where
  unfoldable pub new : ℕ → MmapOptions b
  new size = record { inner = b.new size }

  unfoldable pub page_size : b.State → ℕ × ℕ
  page_size s = b.page_size s

  unfoldable pub with_address : MmapOptions b → ℕ → MmapOptions b
  with_address o address = record { inner = b.with_address o.inner address }

  unfoldable pub with_file : MmapOptions b → b.File → ℕ → MmapOptions b
  with_file o file offset = record { inner = b.with_file o.inner file offset }

  unfoldable pub with_flags : MmapOptions b → ℕ → MmapOptions b
  with_flags o flags = record { inner = b.with_flags o.inner flags }

  unfoldable pub with_unsafe_flags : MmapOptions b → ℕ → MmapOptions b
  with_unsafe_flags o flags = record { inner = b.with_unsafe_flags o.inner flags }

  unfoldable pub with_page_size : MmapOptions b → PageSize → MmapOptions b
  with_page_size o size = record { inner = b.with_page_size o.inner size }

  unfoldable pub map_none : MmapOptions b → Exec b.State Error (MmapNone b)
  map_none o = do m ← b.map_none o.inner; pure (record { inner = m })

  unfoldable pub map : MmapOptions b → Exec b.State Error (Mmap b)
  map o = do m ← b.map o.inner; pure (record { inner = m })

  unfoldable pub map_exec : MmapOptions b → Exec b.State Error (Mmap b)
  map_exec o = do m ← b.map_exec o.inner; pure (record { inner = m })

  unfoldable pub map_mut : MmapOptions b → Exec b.State Error (MmapMut b)
  map_mut o = do m ← b.map_mut o.inner; pure (record { inner = m })

  unfoldable pub map_exec_mut : MmapOptions b → Exec b.State Error (MmapMut b)
  map_exec_mut o = do m ← b.map_exec_mut o.inner; pure (record { inner = m })
