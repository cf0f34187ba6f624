-- ===== src/Mmap/Slices.antt =====
-- The slices of `Mmap` of src/mmap.rs.
use mmap_rs.Common.{ℕ}
use mmap_rs.Backend.{Backend}
use mmap_rs.Mmap.{Mmap, as_ptr, size}

-- `slice::from_raw_parts(ptr, len)`: the addresses `start .. start + length`.
pub record Slice : Type 0 where
  pub start : ℕ
  pub length : ℕ

module _ (b : Backend) (self : Mmap b) where
  unfoldable pub deref : Slice
  unfolding as_ptr size
  deref = record { start = as_ptr b (λ m. m.inner) self; length = size b (λ m. m.inner) self }

  unfoldable pub as_ref : Slice
  unfolding as_ptr size
  as_ref = record { start = as_ptr b (λ m. m.inner) self; length = size b (λ m. m.inner) self }

  -- `[..]` is the whole of the slice that `deref` gives.
  unfoldable pub as_slice : Slice
  unfolding deref
  as_slice = deref
