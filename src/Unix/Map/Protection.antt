-- ===== src/Unix/Map/Protection.antt =====
-- The protection of a mapping that src/os_impl/unix.rs has made or changed.
use mmap_rs.Common.{
  ℕ, ◌+◌, ◌≤◌, ◌<◌, ◌≡◌, ◌∙◌, Bool, true, false, some, sym, ap, refl, arith, if◌then◌else◌,
}
use mmap_rs.Error.{Error, nix, ok, Exec, raise}
use mmap_rs.Error.Inversion.{convert-eq-ok}
use mmap_rs.Flags.UnsafeMmapFlags
use mmap_rs.Unix.Platform.{Platform}
use mmap_rs.Unix.Options.{MmapOptions}
use mmap_rs.Unix.Kernel.{IsKernel}
use mmap_rs.Unix.Mapping
use mmap_rs.Unix.Mapping.{Mmap, do_make}
use mmap_rs.Unix.Map
use mmap_rs.Unix.Map.{advise, do_map, mmap_call, nix_mmap}
use mmap_rs.Unix.Map.Outcome.{advise-Preserves, do_map-eq-ok}

-- Every byte of the mapping has the protection `prot`.
abbrev pub HasProt : (p : Platform) → IsKernel p → p.State → Mmap → ℕ → Type 0
HasProt p k s m prot = (x : ℕ) → m.ptr ≤ x → x < m.ptr + m.size → k.prot_at s x ≡ some prot

-- The kinds of access for which there are a function that maps and one that changes a mapping.
pub data Access : Type 0 where
  no_access read_only exec mutable exec_mutable : Access

jit_only :
    {S A : Type 0} (b : Bool) (call : Exec S Error A) (e : Error) (s : S) {a : A} {t : S}
    → (if b then call else raise e) s ≡ (ok a, t)
    → call s ≡ (ok a, t)
jit_only true call e s h = h
jit_only false call e s h = cc

module _ (p : Platform) where
  abbrev pub prot_of : Access → ℕ
  prot_of no_access = p.prot_none
  prot_of read_only = p.prot_read
  prot_of exec = p.union p.prot_read p.prot_exec
  prot_of mutable = p.union p.prot_read p.prot_write
  prot_of exec_mutable = p.union (p.union p.prot_read p.prot_write) p.prot_exec

  abbrev pub map_as : Access → MmapOptions → Exec p.State Error Mmap
  map_as no_access = Map.map_none p
  map_as read_only = Map.map p
  map_as exec = Map.map_exec p
  map_as mutable = Map.map_mut p
  map_as exec_mutable = Map.map_exec_mut p

  abbrev pub make_as : Access → Mmap → Exec p.State Error Unit
  make_as no_access = Mapping.make_none p
  make_as read_only = Mapping.make_read_only p
  make_as exec = Mapping.make_exec p
  make_as mutable = Mapping.make_mut p
  make_as exec_mutable = Mapping.make_exec_mut p

  -- A success of one of the five ways to map is one of `do_map` with that protection.
  pub map_as-eq-ok :
      (a : Access) (o : MmapOptions) (s : p.State) {m : Mmap} {t : p.State}
      → map_as a o s ≡ (ok m, t)
      → do_map p o (prot_of a) s ≡ (ok m, t)
  unfolding Map.map_none Map.map Map.map_exec Map.map_mut Map.map_exec_mut
  map_as-eq-ok exec_mutable o s h = jit_only (p.contains o.unsafe_flags UnsafeMmapFlags.jit) _ _ s h
  map_as-eq-ok no_access o s h = h
  map_as-eq-ok _ o s h = h

  pub make_as-eq-ok :
      (a : Access) (m : Mmap) (s : p.State) {t : p.State}
      → make_as a m s ≡ (ok tt, t)
      → do_make p m (prot_of a) s ≡ (ok tt, t)
  unfolding Mapping.make_none Mapping.make_read_only Mapping.make_exec Mapping.make_mut
      Mapping.make_exec_mut
  make_as-eq-ok exec_mutable m s h = jit_only (p.contains m.flags Mapping.Flags.jit) _ _ s h
  make_as-eq-ok no_access m s h = h
  make_as-eq-ok _ m s h = h

module _ (p : Platform) (k : IsKernel p) where
  pub mmap_call-HasProt :
      (o : MmapOptions) (prot : ℕ) (s : p.State) {q : ℕ} {t : p.State}
      → mmap_call p o prot s ≡ (ok q, t)
      → (x : ℕ) → q ≤ x
      → x < q + o.size
      → k.prot_at t x ≡ some prot
  unfolding mmap_call
  mmap_call-HasProt o prot s h x lo hi =
      k.mmap-ok _ _ _ _ _ _ x (convert-eq-ok nix (nix_mmap p o prot) s h) lo hi

  pub advise-prot_at :
      (o : MmapOptions) (q : ℕ) (s : p.State) (x : ℕ)
      → k.prot_at (advise p o q s).1 x ≡ k.prot_at s x
  advise-prot_at o q s x =
      (advise-Preserves p {P = λ t. k.prot_at t x ≡ k.prot_at s x} o q
          (λ f. record { holds_after = λ t h. k.madvise-any q o.size f x t ∙ h })
          (record { holds_after = λ t h. k.mlock-any q o.size x t ∙ h })).holds_after
        s refl

  do_map-HasProt :
      (o : MmapOptions) (prot : ℕ) (s : p.State) {m : Mmap} {t : p.State}
      → do_map p o prot s ≡ (ok m, t)
      → HasProt p k t m prot
  do_map-HasProt o prot s {m} {t} h x lo hi =
      let (q, s1, mapped, advised, e) = do_map-eq-ok p o prot s h in
      let at_q : m.ptr ≡ q = ap (λ n. n.ptr) e in
      let sized : m.size ≡ o.size = ap (λ n. n.size) e in
      let fresh = mmap_call-HasProt o prot s mapped x (omega arith) (omega arith) in
      ap (λ r. k.prot_at r.1 x) (sym advised) ∙ advise-prot_at o q s1 x ∙ fresh

  -- Where the system calls do to memory what their laws say: whichever of the five functions
  -- maps, if it succeeds then every byte of the mapping that it returns has the protection of
  -- that function.
  pub map_as-HasProt :
      (a : Access) (o : MmapOptions) (s : p.State) {m : Mmap} {t : p.State}
      → map_as p a o s ≡ (ok m, t)
      → HasProt p k t m (prot_of p a)
  map_as-HasProt a o s h = do_map-HasProt o (prot_of p a) s (map_as-eq-ok p a o s h)

  -- Where the system calls do to memory what their laws say: whichever of the five functions
  -- changes a mapping, if it succeeds then every byte of the mapping has the protection of that
  -- function, whatever it had before.
  pub make_as-HasProt :
      (a : Access) (m : Mmap) (s : p.State) {t : p.State}
      → make_as p a m s ≡ (ok tt, t)
      → HasProt p k t m (prot_of p a)
  unfolding do_make
  make_as-HasProt a m s h x lo hi =
      k.mprotect-ok m.ptr m.size (prot_of p a) x
        (convert-eq-ok nix (p.mprotect m.ptr m.size (prot_of p a)) s (make_as-eq-ok p a m s h)) lo
        hi
