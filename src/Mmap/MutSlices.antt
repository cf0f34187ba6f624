-- ===== src/Mmap/MutSlices.antt =====
-- The slices of `MmapMut` of src/mmap.rs.
use mmap_rs.Common.{ℕ}
use mmap_rs.Backend.{Backend}
use mmap_rs.Mmap.{MmapMut, as_ptr, size}
use mmap_rs.Mmap.Slices.{Slice}

module _ (b : Backend) (self : MmapMut b) where
  unfoldable pub as_mut_ptr : ℕ
  as_mut_ptr = b.as_mut_ptr self.inner

  unfoldable pub deref : Slice
  unfolding as_ptr size
  deref = record { start = as_ptr b (λ m. m.inner) self; length = size b (λ m. m.inner) self }

  unfoldable pub deref_mut : Slice
  unfolding as_mut_ptr size
  deref_mut = record { start = as_mut_ptr; length = size b (λ m. m.inner) self }

  unfoldable pub as_ref : Slice
  unfolding as_ptr size
  as_ref = record { start = as_ptr b (λ m. m.inner) self; length = size b (λ m. m.inner) self }

  unfoldable pub as_mut : Slice
  unfolding as_mut_ptr size
  as_mut = record { start = as_mut_ptr; length = size b (λ m. m.inner) self }

  -- `[..]` is the whole of the slice that `deref` or `deref_mut` gives.
  unfoldable pub as_slice : Slice
  unfolding deref
  as_slice = deref

  unfoldable pub as_mut_slice : Slice
  unfolding deref_mut
  as_mut_slice = deref_mut
