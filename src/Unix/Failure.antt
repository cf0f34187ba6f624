-- ===== src/Unix/Failure.antt =====
-- What a failure of `do_map` of src/os_impl/unix.rs leaves behind, and what `drop` takes away.
use mmap_rs.Common.{ℕ, ◌+◌, ◌≤◌, ◌<◌, ◌≡◌, ap, ◌∙◌, sym, none, some}
use mmap_rs.Error.{Error, ok, err, continue}
use mmap_rs.Unix.Platform.{Platform}
use mmap_rs.Unix.Options.{MmapOptions}
use mmap_rs.Unix.Kernel.{IsKernel}
use mmap_rs.Unix.Mapping.{Mmap, drop}
use mmap_rs.Unix.Map.{advise, mmap_call, do_map}
use mmap_rs.Unix.Map.Protection.{mmap_call-HasProt, advise-prot_at}

module _ (p : Platform) (k : IsKernel p) where
  -- Where the system calls do to memory what their laws say: if `mmap` has mapped memory and a
  -- call after it fails, then `do_map` returns the error of that call, and every byte at the
  -- new address stays mapped with the protection that was asked for, although no mapping is
  -- returned.
  pub do_map-leaks :
      (o : MmapOptions) (prot : ℕ) (s : p.State) {q : ℕ} {s1 t : p.State} {e : Error}
      → mmap_call p o prot s ≡ (ok q, s1)
      → advise p o q s1 ≡ (err e, t)
      → (x : ℕ) → q ≤ x
      → x < q + o.size
      → (do_map p o prot s ≡ (err e, t)) × (k.prot_at t x ≡ some prot)
  unfolding do_map
  do_map-leaks o prot s {q} {s1} mapped failed x lo hi = (
    rw (mapped, continue) (rw (failed, continue)),
    ap (λ r. k.prot_at r.1 x) (sym failed)
        ∙ advise-prot_at p k o q s1 x
        ∙ mmap_call-HasProt p k o prot s mapped x lo hi,
  )

  -- Where the system calls do to memory what their laws say: the end of a mapping unmaps all of
  -- its bytes, if `munmap` succeeds.
  pub drop-unmaps :
      (m : Mmap) (s : p.State) {t : p.State}
      → p.munmap m.ptr m.size s ≡ (ok tt, t)
      → (x : ℕ) → m.ptr ≤ x
      → x < m.ptr + m.size
      → k.prot_at (drop p m s) x ≡ none
  unfolding drop
  drop-unmaps m s freed x lo hi =
      ap (λ r. k.prot_at r.1 x) freed ∙ k.munmap-ok m.ptr m.size x freed lo hi
