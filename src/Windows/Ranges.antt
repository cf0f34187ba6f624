-- ===== src/Windows/Ranges.antt =====
-- The addresses that `flush` and `flush_async` of src/os_impl/windows.rs hand to `FlushViewOfFile`.
use Prim.Native.Nat.{◌-◌}
use native.Mathlib.Nat.{mod-eq_of_lt}
use mmap_rs.Common.{◌+◌, ◌^◌, ◌≤◌, ◌<◌, ◌≡◌, arith}
use mmap_rs.Error.{ok}
use mmap_rs.Backend.{Range}
use mmap_rs.Windows.Platform.{Platform, status}
use mmap_rs.Windows.Mapping.{Mmap, flush, flush_async, sync}

module _ (p : Platform) (m : Mmap) (r : Range) (s : p.State) where
  -- On Windows, flushing a range that is empty or reversed succeeds with no call for the range;
  -- `flush` then still waits for the file.
  pub flush-empty :
      r.end ≤ r.start → (flush_async p m r s ≡ (ok tt, s)) × (flush p m r s ≡ sync p m.file s)
  unfolding flush flush_async
  flush-empty empty = ground arith

  -- On Windows, a range of one byte or more inside a mapping that lies inside the address space
  -- is flushed by `flush_async` as it is, and the bytes from `ptr + start` to `ptr + end` all
  -- belong to the mapping.
  pub flush_async-inside :
      r.start < r.end
      → r.end ≤ m.size
      → m.ptr + m.size < 2 ^ p.pointer_width
      → (flush_async p m r s
          ≡ status p (p.flush_view_of_file (m.ptr + r.start) (r.end - r.start) s))
        × (m.ptr + r.start + (r.end - r.start) ≤ m.ptr + m.size)
  unfolding flush_async
  flush_async-inside ordered inside fits =
      let whole : m.ptr + r.start < 2 ^ p.pointer_width = omega arith in
      (rw (mod-eq_of_lt whole) (ground arith), omega arith)
