-- ===== src/Unix/Typed.antt =====
-- src/mmap.rs over src/os_impl/unix.rs: the protection after a conversion.
use mmap_rs.Common.{ℕ, ◌≡◌, refl, ap, ◌∙◌, sym, subst, arith}
use mmap_rs.Error.{Error, Result, ok, err, ◌>>◌}
use mmap_rs.Error.Inversion.{>>=-eq-ok}
use mmap_rs.Backend.{Backend}
use mmap_rs.Mmap.{retype}
use mmap_rs.Mmap.Handle.{
  Handle, immutable, inner, Conversion, to_none, to_read_only, to_exec, to_exec_no_flush, to_mut,
  to_exec_mut, as_handle, convert_to,
}
use mmap_rs.Unix.Platform.{Platform}
use mmap_rs.Unix.Kernel.{IsKernel}
use mmap_rs.Unix.Mapping.{Mmap, flush_icache, make_exec, offset}
use mmap_rs.Unix.Map.Protection.{
  HasProt, Access, no_access, read_only, exec, mutable, exec_mutable, prot_of, make_as,
  make_as-HasProt,
}
use mmap_rs.Unix.Backend.{unix}

-- The kind of access that each conversion gives.
abbrev pub access_of : Conversion → Access
access_of to_none = no_access
access_of to_read_only = read_only
access_of to_exec = exec
access_of to_exec_no_flush = exec
access_of to_mut = mutable
access_of to_exec_mut = exec_mutable

module _ (b : Backend) {U : Type 0} (h : Handle b) (wrap : U → Handle b) (new : U) where
  pub retype-eq-ok :
      (r : Result Error Unit × b.State) {h' : Handle b} {t : b.State}
      → as_handle wrap (retype b (inner b) h new r) ≡ (ok h', t)
      → (r ≡ (ok tt, t)) × (h' ≡ wrap new)
  retype-eq-ok (ok _, s) e = (cc, cc)
  retype-eq-ok (err d, s) e = cc

module _ (p : Platform) (k : IsKernel p) where
  flush_icache-prot_at :
      (m : Mmap) (s : p.State) (x : ℕ) → k.prot_at (flush_icache p m s).1 x ≡ k.prot_at s x
  unfolding flush_icache
  flush_icache-prot_at m s x = ground (
    arith,
    k.sys_icache_invalidate-any m.ptr m.size x s,
    k.clear_cache-any m.ptr (offset p.target m.ptr m.size) x s,
  )

  flushed-HasProt :
      (m : Mmap) (s : p.State) {t : p.State}
      → (make_exec p m >> flush_icache p m) s ≡ (ok tt, t)
      → HasProt p k t m (prot_of p exec)
  flushed-HasProt m s e x lo hi =
      let (_, s1, made, flushed) = >>=-eq-ok (make_exec p m) (λ _. flush_icache p m) s e in
      ap (λ r. k.prot_at r.1 x) (sym flushed)
      ∙ flush_icache-prot_at m s1 x
      ∙ make_as-HasProt p k exec m s made x lo hi

  module _ (h : Handle (unix p)) (s : p.State) {h' : Handle (unix p)} {t : p.State} where
    retype-HasProt :
        {U : Type 0} (a : Access) (wrap : U → Handle (unix p)) (new : U)
        → inner (unix p) (wrap new) ≡ inner (unix p) h
        → as_handle wrap (retype (unix p) (inner (unix p)) h new (make_as p a (inner (unix p) h) s))
          ≡ (ok h', t)
        → HasProt p k t (inner (unix p) h') (prot_of p a)
    retype-HasProt a wrap new same e =
        let m = inner (unix p) h in
        let (made, is) = retype-eq-ok (unix p) h wrap new (make_as p a m s) e in
        subst (λ n. HasProt p k t n (prot_of p a)) (sym (ap (inner (unix p)) is ∙ same))
          (make_as-HasProt p k a m s made)

    -- Where the system calls do to memory what their laws say: after a conversion that
    -- succeeds, over Unix and from any of the three types, every byte of the mapping has the
    -- protection of the conversion: none, reading, reading and executing, with or without the
    -- flush of the instruction cache, reading and writing, or all three.
    pub convert_to-HasProt :
        (c : Conversion)
        → convert_to (unix p) c h s ≡ (ok h', t)
        → HasProt p k t (inner (unix p) h') (prot_of p (access_of c))
    unfolding convert_to
    convert_to-HasProt to_exec e =
        let m = inner (unix p) h in
        let (done, is) =
          retype-eq-ok (unix p) h immutable (record { inner = m })
            ((make_exec p m >> flush_icache p m) s) e in
        subst (λ n. HasProt p k t n (prot_of p exec)) (sym (ap (inner (unix p)) is))
          (flushed-HasProt m s done)
    convert_to-HasProt to_none e = retype-HasProt no_access _ _ refl e
    convert_to-HasProt to_read_only e = retype-HasProt read_only _ _ refl e
    convert_to-HasProt to_exec_no_flush e = retype-HasProt exec _ _ refl e
    convert_to-HasProt to_mut e = retype-HasProt mutable _ _ refl e
    convert_to-HasProt to_exec_mut e = retype-HasProt exec_mutable _ _ refl e
