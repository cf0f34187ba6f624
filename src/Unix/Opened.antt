-- ===== src/Unix/Opened.antt =====
-- The options of src/mmap.rs over src/os_impl/unix.rs: which type of mapping each way to map gives,
-- and with which protection.
use mmap_rs.Common.{ℕ, ◌^◌, ◌≡◌, refl, ◌∙◌, ap, subst, sym, arith, Bool, true, false}
use mmap_rs.Error.{Error, Result, ok, err, Exec, continue}
use mmap_rs.Backend.{Backend}
use mmap_rs.Mmap.Options
use mmap_rs.Mmap.Options.{MmapOptions}
use mmap_rs.Mmap.Handle
use mmap_rs.Mmap.Handle.{Handle, Conversion, inner, as_handle, convert_to}
use mmap_rs.Unix.Platform.{Platform}
use mmap_rs.Unix.Kernel.{IsKernel, HasProtections}
use mmap_rs.Unix.Map.Protection
use mmap_rs.Unix.Map.Protection.{
  HasProt, Access, no_access, read_only, exec, exec_mutable, prot_of, map_as, map_as-HasProt,
}
use mmap_rs.Unix.Exclusive.{eqb_of_ne, has-none, has-read, has-write, has-exec}
use mmap_rs.Unix.Typed.{access_of, convert_to-HasProt}
use mmap_rs.Unix.Backend.{unix}

-- The wrapper that maps with each kind of access.
unfoldable pub open_as : (b : Backend) → Access → MmapOptions b → Exec b.State Error (Handle b)
unfolding Options.map_none Options.map Options.map_exec Options.map_mut Options.map_exec_mut
open_as b no_access o s = as_handle Handle.inaccessible (Options.map_none b o s)
open_as b read_only o s = as_handle Handle.immutable (Options.map b o s)
open_as b exec o s = as_handle Handle.immutable (Options.map_exec b o s)
open_as b Protection.mutable o s = as_handle Handle.mutable (Options.map_mut b o s)
open_as b exec_mutable o s = as_handle Handle.mutable (Options.map_exec_mut b o s)

-- Whether the type of the mapping lets its user write.
abbrev pub is_mutable : (b : Backend) → Handle b → Bool
is_mutable b (Handle.inaccessible m) = false
is_mutable b (Handle.immutable m) = false
is_mutable b (Handle.mutable m) = true

-- Whether each kind of access lets its user write.
abbrev pub writes : Access → Bool
writes no_access = false
writes read_only = false
writes exec = false
writes Protection.mutable = true
writes exec_mutable = true

module _ (b : Backend) {U : Type 0} (wrap : U → Handle b) (new : b.Mapping → U) where
  pub wrapped-eq-ok :
      (r : Result Error b.Mapping × b.State) {h : Handle b} {t : b.State}
      → as_handle wrap (continue (λ m s. (ok (new m), s)) r) ≡ (ok h, t)
      → (m : b.Mapping) × (r ≡ (ok m, t)) × (wrap (new m) ≡ h)
  wrapped-eq-ok (ok m, s) e = (m, cc, cc)
  wrapped-eq-ok (err d, s) e = cc

module _ (p : Platform) (k : IsKernel p) (o : MmapOptions (unix p)) (s : p.State) where
  wrapped-HasProt :
      {U : Type 0} (a : Access) (wrap : U → Handle (unix p)) (new : (unix p).Mapping → U) (w : Bool)
      {h : Handle (unix p)} {t : p.State}
      → ((m : (unix p).Mapping) → inner (unix p) (wrap (new m)) ≡ m)
      → ((m : (unix p).Mapping) → is_mutable (unix p) (wrap (new m)) ≡ w)
      → as_handle wrap (continue (λ m s. (ok (new m), s)) (map_as p a o.inner s)) ≡ (ok h, t)
      → HasProt p k t (inner (unix p) h) (prot_of p a) × (is_mutable (unix p) h ≡ w)
  wrapped-HasProt a wrap new w {h} {t} same typed e =
      let (m, mapped, is) = wrapped-eq-ok (unix p) wrap new (map_as p a o.inner s) e in
      subst (λ n. HasProt p k t (inner (unix p) n) (prot_of p a) × (is_mutable (unix p) n ≡ w)) is
        (
          subst (λ n. HasProt p k t n (prot_of p a)) (sym (same m))
              (map_as-HasProt p k a o.inner s mapped),
          typed m,
        )

  open_as-HasProt :
      (a : Access) {h : Handle (unix p)} {t : p.State}
      → open_as (unix p) a o s ≡ (ok h, t)
      → HasProt p k t (inner (unix p) h) (prot_of p a) × (is_mutable (unix p) h ≡ writes a)
  unfolding open_as
  open_as-HasProt no_access e = wrapped-HasProt no_access _ _ false (λ m. refl) (λ m. refl) e
  open_as-HasProt read_only e = wrapped-HasProt read_only _ _ false (λ m. refl) (λ m. refl) e
  open_as-HasProt exec e = wrapped-HasProt exec _ _ false (λ m. refl) (λ m. refl) e
  open_as-HasProt Protection.mutable e =
      wrapped-HasProt Protection.mutable _ _ true (λ m. refl) (λ m. refl) e
  open_as-HasProt exec_mutable e = wrapped-HasProt exec_mutable _ _ true (λ m. refl) (λ m. refl) e

as_handle-writes :
    (b : Backend) {U : Type 0} (wrap : U → Handle b) (w : Bool)
    (r : Result (Handle b × Error) U × b.State) {h : Handle b} {t : b.State}
    → ((u : U) → is_mutable b (wrap u) ≡ w)
    → as_handle wrap r ≡ (ok h, t)
    → is_mutable b h ≡ w
as_handle-writes b wrap w (ok u, s) {h = h} typed e =
    let is : wrap u ≡ h = cc in subst (λ n. is_mutable b n ≡ w) is (typed u)
as_handle-writes b wrap w (err d, s) typed e = cc

convert_to-writes :
    (b : Backend) (c : Conversion) (h : Handle b) (s : b.State) {h' : Handle b} {t : b.State}
    → convert_to b c h s ≡ (ok h', t)
    → is_mutable b h' ≡ writes (access_of c)
unfolding convert_to
convert_to-writes b Handle.to_none h s e =
    as_handle-writes b Handle.inaccessible false _ (λ u. refl) e
convert_to-writes b Handle.to_read_only h s e =
    as_handle-writes b Handle.immutable false _ (λ u. refl) e
convert_to-writes b Handle.to_exec h s e = as_handle-writes b Handle.immutable false _ (λ u. refl) e
convert_to-writes b Handle.to_exec_no_flush h s e =
    as_handle-writes b Handle.immutable false _ (λ u. refl) e
convert_to-writes b Handle.to_mut h s e = as_handle-writes b Handle.mutable true _ (λ u. refl) e
convert_to-writes b Handle.to_exec_mut h s e =
    as_handle-writes b Handle.mutable true _ (λ u. refl) e

write_bit-prot_of :
    (p : Platform) (r : HasProtections p) (a : Access)
    → p.contains (prot_of p a) (2 ^ r.write_bit) ≡ writes a
write_bit-prot_of p r no_access = has-none p r r.write_bit
write_bit-prot_of p r read_only = has-read p r r.write_bit ∙ eqb_of_ne _ _ r.read-ne-write
write_bit-prot_of p r exec =
    r.bits.contains-union p.prot_read p.prot_exec r.write_bit
    ∙ ground (
      arith,
      has-read p r r.write_bit,
      has-exec p r r.write_bit,
      r.read-ne-write,
      r.write-ne-exec,
    )
write_bit-prot_of p r Protection.mutable =
    r.bits.contains-union p.prot_read p.prot_write r.write_bit
    ∙ ground (arith, has-write p r r.write_bit)
write_bit-prot_of p r exec_mutable =
    r.bits.contains-union (p.union p.prot_read p.prot_write) p.prot_exec r.write_bit
    ∙ ground (
      arith,
      r.bits.contains-union p.prot_read p.prot_write r.write_bit,
      has-write p r r.write_bit,
    )

pub writes-prot_of :
    (p : Platform)
    → HasProtections p
    → (a : Access) → p.contains (prot_of p a) p.prot_write ≡ writes a
writes-prot_of p r a = ap (p.contains (prot_of p a)) r.prot_write-pow ∙ write_bit-prot_of p r a

-- All bytes of the mapping have one protection, and it lets write exactly when the type does.
pub record IsTyped (p : Platform) (k : IsKernel p) (s : p.State) (h : Handle (unix p))
    : Type 0 where
  pub prot : ℕ
  pub has_prot : HasProt p k s (inner (unix p) h) prot
  pub same : p.contains prot p.prot_write ≡ is_mutable (unix p) h

module _ (p : Platform) (r : HasProtections p) (k : IsKernel p) where
  -- Where the system calls do to memory what their laws say, and each kind of access has a bit
  -- of its own: a mapping that any of the five ways to map has returned, over Unix, has one
  -- protection in all its bytes, and this lets write exactly when the type of the mapping is
  -- `MmapMut`.
  pub open_as-IsTyped :
      (a : Access) (o : MmapOptions (unix p)) (s : p.State) {h : Handle (unix p)} {t : p.State}
      → open_as (unix p) a o s ≡ (ok h, t)
      → IsTyped p k t h
  open_as-IsTyped a o s e =
      let (has, typed) = open_as-HasProt p k o s a e in
      record { prot = prot_of p a; has_prot = has; same = writes-prot_of p r a ∙ sym typed }

  -- Where the system calls do to memory what their laws say, and each kind of access has a bit
  -- of its own: after any of the six conversions succeeds, over Unix and from any of the three
  -- types, the mapping has one protection in all its bytes, and this lets write exactly when
  -- its new type is `MmapMut`.
  pub convert_to-IsTyped :
      (c : Conversion) (h : Handle (unix p)) (s : p.State) {h' : Handle (unix p)} {t : p.State}
      → convert_to (unix p) c h s ≡ (ok h', t)
      → IsTyped p k t h'
  convert_to-IsTyped c h s e = record {
    prot = prot_of p (access_of c);
    has_prot = convert_to-HasProt p k h s c e;
    same = writes-prot_of p r (access_of c) ∙ sym (convert_to-writes (unix p) c h s e);
  }
