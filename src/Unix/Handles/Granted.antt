-- ===== src/Unix/Handles/Granted.antt =====
-- What the type of a mapping of src/mmap.rs lets its user do, and the protection with which it comes.
use mmap_rs.Common.{◌^◌, ◌≡◌, ap, ◌∙◌, sym, subst, arith, true, false, Bool}
use mmap_rs.Error.{Error, Result, ok, continue}
use mmap_rs.Mmap.{retype}
use mmap_rs.Mmap.Options.{MmapOptions}
use mmap_rs.Mmap.Handle
use mmap_rs.Mmap.Handle.{Handle, Conversion, inner, as_handle, convert_to}
use mmap_rs.Unix.Platform.{Platform}
use mmap_rs.Unix.Kernel.{HasProtections}
use mmap_rs.Unix.Map.Protection
use mmap_rs.Unix.Map.Protection.{Access, no_access, read_only, exec, exec_mutable, prot_of, map_as}
use mmap_rs.Unix.Exclusive.{has-none, has-read}
use mmap_rs.Unix.Typed.{access_of, retype-eq-ok}
use mmap_rs.Unix.Opened.{open_as, wrapped-eq-ok, writes-prot_of}
use mmap_rs.Unix.Backend.{unix}

-- The access gives what the type lets its user do.
abbrev pub Grants : (p : Platform) → Access → Handle (unix p) → Type 0
Grants p a (Handle.inaccessible m) = Unit
Grants p a (Handle.immutable m) = p.contains (prot_of p a) p.prot_read ≡ true
Grants p a (Handle.mutable m) =
    (p.contains (prot_of p a) p.prot_read ≡ true) × (p.contains (prot_of p a) p.prot_write ≡ true)

-- Whether each kind of access lets its user read.
abbrev reads : Access → Bool
reads no_access = false
reads _ = true

module _ (p : Platform) (r : HasProtections p) where
  read_bit-prot_of : (a : Access) → p.contains (prot_of p a) (2 ^ r.read_bit) ≡ reads a
  read_bit-prot_of no_access = has-none p r r.read_bit
  read_bit-prot_of read_only = has-read p r r.read_bit ∙ ground arith
  read_bit-prot_of exec =
      r.bits.contains-union p.prot_read p.prot_exec r.read_bit
      ∙ ground (arith, has-read p r r.read_bit)
  read_bit-prot_of Protection.mutable =
      r.bits.contains-union p.prot_read p.prot_write r.read_bit
      ∙ ground (arith, has-read p r r.read_bit)
  read_bit-prot_of exec_mutable =
      r.bits.contains-union (p.union p.prot_read p.prot_write) p.prot_exec r.read_bit
      ∙ ground (
        arith,
        r.bits.contains-union p.prot_read p.prot_write r.read_bit,
        has-read p r r.read_bit,
      )

  reads-prot_of : (a : Access) → p.contains (prot_of p a) p.prot_read ≡ reads a
  reads-prot_of a = ap (p.contains (prot_of p a)) r.prot_read-pow ∙ read_bit-prot_of a

  wrapped-Grants :
      {U : Type 0} (a : Access) (wrap : U → Handle (unix p)) (new : (unix p).Mapping → U)
      (o : MmapOptions (unix p)) (s : p.State) {h : Handle (unix p)} {t : p.State}
      → ((m : (unix p).Mapping) → Grants p a (wrap (new m)))
      → as_handle wrap (continue (λ m s. (ok (new m), s)) (map_as p a o.inner s)) ≡ (ok h, t)
      → Grants p a h
  wrapped-Grants a wrap new o s grants e =
      let (m, mapped, is) = wrapped-eq-ok (unix p) wrap new (map_as p a o.inner s) e in
      subst (Grants p a) is (grants m)

  pub open_as-Grants :
      (a : Access) (o : MmapOptions (unix p)) (s : p.State) {h : Handle (unix p)} {t : p.State}
      → open_as (unix p) a o s ≡ (ok h, t)
      → Grants p a h
  unfolding open_as
  open_as-Grants no_access o s e = wrapped-Grants no_access _ _ o s (λ m. tt) e
  open_as-Grants read_only o s e = wrapped-Grants read_only _ _ o s (λ m. reads-prot_of read_only) e
  open_as-Grants exec o s e = wrapped-Grants exec _ _ o s (λ m. reads-prot_of exec) e
  open_as-Grants Protection.mutable o s e =
      wrapped-Grants Protection.mutable _ _ o s
        (λ m. (reads-prot_of Protection.mutable, writes-prot_of p r Protection.mutable)) e
  open_as-Grants exec_mutable o s e =
      wrapped-Grants exec_mutable _ _ o s
        (λ m. (reads-prot_of exec_mutable, writes-prot_of p r exec_mutable)) e

  retype-Grants :
      {U : Type 0} (c : Conversion) (h : Handle (unix p)) (wrap : U → Handle (unix p)) (new : U)
      (q : Result Error Unit × p.State) {h' : Handle (unix p)} {t : p.State}
      → Grants p (access_of c) (wrap new)
      → as_handle wrap (retype (unix p) (inner (unix p)) h new q) ≡ (ok h', t)
      → Grants p (access_of c) h'
  retype-Grants c h wrap new q grants e =
      subst (Grants p (access_of c)) (sym (retype-eq-ok (unix p) h wrap new q e).1) grants

  pub convert_to-Grants :
      (c : Conversion) (h : Handle (unix p)) (s : p.State) {h' : Handle (unix p)} {t : p.State}
      → convert_to (unix p) c h s ≡ (ok h', t)
      → Grants p (access_of c) h'
  unfolding convert_to
  convert_to-Grants Handle.to_none h s e =
      retype-Grants Handle.to_none h Handle.inaccessible _ _ tt e
  convert_to-Grants Handle.to_read_only h s e =
      retype-Grants Handle.to_read_only h Handle.immutable _ _ (reads-prot_of read_only) e
  convert_to-Grants Handle.to_exec h s e =
      retype-Grants Handle.to_exec h Handle.immutable _ _ (reads-prot_of exec) e
  convert_to-Grants Handle.to_exec_no_flush h s e =
      retype-Grants Handle.to_exec_no_flush h Handle.immutable _ _ (reads-prot_of exec) e
  convert_to-Grants Handle.to_mut h s e =
      retype-Grants Handle.to_mut h Handle.mutable _ _
        (reads-prot_of Protection.mutable, writes-prot_of p r Protection.mutable) e
  convert_to-Grants Handle.to_exec_mut h s e =
      retype-Grants Handle.to_exec_mut h Handle.mutable _ _
        (reads-prot_of exec_mutable, writes-prot_of p r exec_mutable) e
