-- ===== src/Mmap/Handle.antt =====
-- The mapping types of src/mmap.rs under one roof, and the six conversions between them.
use mmap_rs.Error.{Error, Result, ok, err, Exec}
use mmap_rs.Backend.{Backend}
use mmap_rs.Mmap
use mmap_rs.Mmap.{MmapNone, Mmap, MmapMut}

pub data Handle (b : Backend) : Type 0 where
  inaccessible : MmapNone b → Handle b
  immutable : Mmap b → Handle b
  mutable : MmapMut b → Handle b

abbrev pub inner : (b : Backend) → Handle b → b.Mapping
inner b (inaccessible m) = m.inner
inner b (immutable m) = m.inner
inner b (mutable m) = m.inner

pub data Conversion : Type 0 where
  to_none to_read_only to_exec to_exec_no_flush to_mut to_exec_mut : Conversion

-- Forgets which type a successful conversion returns.
abbrev pub as_handle : {S E U H : Type 0} → (U → H) → Result E U × S → Result E H × S
as_handle wrap (ok u, s) = (ok (wrap u), s)
as_handle wrap (err e, s) = (err e, s)

-- The method that each conversion is.
unfoldable pub convert_to :
    (b : Backend) → Conversion → Handle b → Exec b.State (Handle b × Error) (Handle b)
unfolding Mmap.make_none Mmap.make_read_only Mmap.make_exec Mmap.make_exec_no_flush Mmap.make_mut
    Mmap.make_exec_mut
convert_to b to_none h s = as_handle inaccessible (Mmap.make_none b (inner b) h s)
convert_to b to_read_only h s = as_handle immutable (Mmap.make_read_only b (inner b) h s)
convert_to b to_exec h s = as_handle immutable (Mmap.make_exec b (inner b) h s)
convert_to b to_exec_no_flush h s = as_handle immutable (Mmap.make_exec_no_flush b (inner b) h s)
convert_to b to_mut h s = as_handle mutable (Mmap.make_mut b (inner b) h s)
convert_to b to_exec_mut h s = as_handle mutable (Mmap.make_exec_mut b (inner b) h s)
