-- ===== src/Unix/Handles/Usable.antt =====
-- What the slices of src/mmap.rs rely on, over src/os_impl/unix.rs.
use mmap_rs.Common.{ℕ, ◌+◌, ◌≤◌, ◌<◌, ◌≡◌, true, some, List, [], ◌∷◌, All}
use mmap_rs.Mmap.Slices
use mmap_rs.Mmap.Slices.{Slice}
use mmap_rs.Mmap.MutSlices
use mmap_rs.Mmap.Handle.{Handle, inaccessible, immutable, mutable, inner}
use mmap_rs.Unix.Platform.{Platform}
use mmap_rs.Unix.Kernel.{IsKernel}
use mmap_rs.Unix.Map.Protection.{Access, HasProt, prot_of}
use mmap_rs.Unix.Handles.Granted.{Grants}
use mmap_rs.Unix.Backend.{unix}

-- The slices through which the type of a mapping lets its user read, and write.
abbrev pub reading : (p : Platform) → Handle (unix p) → List Slice
reading p (inaccessible m) = []
reading p (immutable m) =
    Slices.deref (unix p) m ∷ Slices.as_ref (unix p) m ∷ Slices.as_slice (unix p) m ∷ []
reading p (mutable m) =
    MutSlices.deref (unix p) m ∷ MutSlices.as_ref (unix p) m ∷ MutSlices.as_slice (unix p) m ∷ []

abbrev pub writing : (p : Platform) → Handle (unix p) → List Slice
writing p (mutable m) =
    MutSlices.deref_mut (unix p) m
    ∷ MutSlices.as_mut (unix p) m
    ∷ MutSlices.as_mut_slice (unix p) m
    ∷ []
writing p _ = []

module _ (p : Platform) (k : IsKernel p) where
  -- Every byte of the slice is mapped with a protection that has this access.
  abbrev pub Allows : p.State → ℕ → Slice → Type 0
  Allows s q slice =
      (x : ℕ)
      → slice.start ≤ x
      → x < slice.start + slice.length
      → (prot : ℕ) × (k.prot_at s x ≡ some prot) × (p.contains prot q ≡ true)

  abbrev pub Usable : p.State → Handle (unix p) → Type 0
  Usable s h = All (Allows s p.prot_read) (reading p h) × All (Allows s p.prot_write) (writing p h)

  -- All bytes of the mapping have the protection of an access that gives what the type does.
  pub record Granted (s : p.State) (h : Handle (unix p)) : Type 0 where
    pub access : Access
    pub has_prot : HasProt p k s (inner (unix p) h) (prot_of p access)
    pub grants : Grants p access h

  pub Granted-Usable : (s : p.State) (h : Handle (unix p)) → Granted s h → Usable s h
  unfolding Slices.deref Slices.as_ref Slices.as_slice MutSlices.deref MutSlices.as_ref
      MutSlices.as_slice MutSlices.deref_mut MutSlices.as_mut MutSlices.as_mut_slice
      MutSlices.as_mut_ptr mmap_rs.Mmap.as_ptr mmap_rs.Mmap.size
  Granted-Usable s (inaccessible m) g = (tt, tt)
  Granted-Usable s (immutable m) g =
      let read : Allows s p.prot_read (record { start = m.inner.ptr; length = m.inner.size }) =
        λ x lo hi. (prot_of p g.access, g.has_prot x lo hi, g.grants) in
      ((read, (read, (read, tt))), tt)
  Granted-Usable s (mutable m) g =
      let read : Allows s p.prot_read (record { start = m.inner.ptr; length = m.inner.size }) =
        λ x lo hi. (prot_of p g.access, g.has_prot x lo hi, g.grants.0) in
      let write : Allows s p.prot_write (record { start = m.inner.ptr; length = m.inner.size }) =
        λ x lo hi. (prot_of p g.access, g.has_prot x lo hi, g.grants.1) in
      ((read, (read, (read, tt))), (write, (write, (write, tt))))
