-- ===== src/Windows/Protection.antt =====
-- The protection of a mapping that src/os_impl/windows.rs has made or changed, and what its end
-- takes away.
use mmap_rs.Common.{
  ℕ, ◌+◌, ◌^◌, ◌≤◌, ◌<◌, ◌≡◌, ◌≢◌, ◌∙◌, Bool, true, false, Option, none, some, sym, ap, subst,
  arith,
}
use mmap_rs.Error.{Error, Result, ok, Exec, pure, convert, windows, ◌>>◌}
use mmap_rs.Error.Inversion.{>>=-eq-ok, >>-pure-eq-ok}
use mmap_rs.Windows.Platform.{File, Platform, status}
use mmap_rs.Windows.Kernel.{IsKernel}
use mmap_rs.Windows.Mapping.{Mmap, do_make}
use mmap_rs.Windows.Options.{MmapOptions}
use mmap_rs.Windows.Map.{
  view, narrow, view_narrowed, finish, add_if_huge, map_file, allocate, obtain, non_null, do_map,
  mapping_at, create,
}

-- Every byte of the mapping has the protection `protect`.
abbrev pub HasProtect : (p : Platform) → IsKernel p → p.State → Mmap → ℕ → Type 0
HasProtect p k s m protect =
    (x : ℕ) → m.ptr ≤ x → x < m.ptr + m.size → k.protect_at s x ≡ some protect

status-eq-ok :
    (p : Platform) (r : Bool × p.State) {t : p.State} → status p r ≡ (ok tt, t) → r ≡ (true, t)
status-eq-ok p (true, s) h = cc
status-eq-ok p (false, s) h = cc

ok-eq-ok :
    {E S A : Type 0} (r : A × S) {a : A} {t : S}
    → Path (Result E A × S) (ok r.0, r.1) (ok a, t)
    → r ≡ (a, t)
ok-eq-ok r h = cc

-- What `finish` does with an address.
abbrev pub located : (p : Platform) → MmapOptions → ℕ → Exec p.State Error Mmap
located p o q = non_null p q >> pure (mapping_at p o q)

module _ (p : Platform) (k : IsKernel p) where
  pub do_make-HasProtect :
      (m : Mmap) (protect : ℕ) (s : p.State) {t : p.State}
      → do_make p m protect s ≡ (ok tt, t)
      → HasProtect p k t m protect
  unfolding do_make
  do_make-HasProtect m protect s h x lo hi =
      k.virtual_protect-true m.ptr m.size protect x
        (status-eq-ok p (p.virtual_protect m.ptr m.size protect s) h) lo hi

  -- Whatever the options add, the pages are committed.
  commits :
      (o : MmapOptions)
      → p.contains
          (add_if_huge p o p.mem_large_pages (p.union p.mem_commit p.mem_reserve))
          p.mem_commit
        ≡ true
  commits o = rw k.mem_commit-pow (
      ground (
        arith,
        k.bits.contains-union (p.union (2 ^ k.commit_bit) p.mem_reserve) p.mem_large_pages
            k.commit_bit,
        k.bits.contains-union (2 ^ k.commit_bit) p.mem_reserve k.commit_bit,
        k.bits.contains-bit k.commit_bit k.commit_bit,
      ))

  allocate-HasProtect :
      (o : MmapOptions) (protect : ℕ) (s : p.State) {q : ℕ} {t : p.State}
      → allocate p o protect s ≡ (ok q, t)
      → q ≢ 0
      → (x : ℕ) → q ≤ x
      → x < q + o.size
      → k.protect_at t x ≡ some protect
  unfolding allocate
  allocate-HasProtect o protect s h ne x lo hi =
      k.virtual_alloc-some _ _ _ _ x (commits o) (ok-eq-ok (p.virtual_alloc _ o.size _ protect s) h)
        ne lo hi

  view_narrowed-HasProtect :
      (o : MmapOptions) (offset protect access mapping : ℕ) (s : p.State) {q : ℕ} {t : p.State}
      → view_narrowed p o offset protect access mapping s ≡ (ok q, t)
      → (x : ℕ) → q ≤ x
      → x < q + o.size
      → k.protect_at t x ≡ some protect
  unfolding view_narrowed
  view_narrowed-HasProtect o offset protect access mapping s h x lo hi =
      let r = view p mapping (add_if_huge p o p.file_map_large_pages access) offset o.size s in
      let (_, done, same) = >>-pure-eq-ok (narrow p r.0 o.size protect) r.0 r.1 h in
      k.virtual_protect-true r.0 o.size protect x
        (status-eq-ok p (p.virtual_protect r.0 o.size protect r.1) done)
        (subst (λ n. n ≤ x) same lo) (subst (λ n. x < n + o.size) same hi)

  map_file-HasProtect :
      (o : MmapOptions) (file : File) (offset protect : ℕ) (wide : ℕ × ℕ) (s : p.State) {q : ℕ}
      {t : p.State}
      → map_file p o file offset protect wide s ≡ (ok q, t)
      → (x : ℕ) → q ≤ x
      → x < q + o.size
      → k.protect_at t x ≡ some protect
  unfolding map_file
  map_file-HasProtect o file offset protect (map_protection, map_access) s h =
      let (mapping, s1, _, h1) =
        >>=-eq-ok (convert windows (create p o file map_protection))
          (view_narrowed p o offset protect map_access) s h in
      view_narrowed-HasProtect o offset protect map_access mapping s1 h1

  obtain-HasProtect :
      (o : MmapOptions) (protect : ℕ) (file : Option (File × ℕ)) (wide : ℕ × ℕ) (s : p.State)
      {q : ℕ} {t : p.State}
      → obtain p o protect file wide s ≡ (ok q, t)
      → q ≢ 0
      → (x : ℕ) → q ≤ x
      → x < q + o.size
      → k.protect_at t x ≡ some protect
  unfolding obtain
  obtain-HasProtect o protect none wide s h ne = allocate-HasProtect o protect s h ne
  obtain-HasProtect o protect (some (file, offset)) wide s h ne =
      map_file-HasProtect o file offset protect wide s h

  non_null-eq-ok :
      (q : ℕ) (s : p.State) {u : Unit} {t : p.State}
      → non_null p q s ≡ (ok u, t)
      → (q ≢ 0) × (s ≡ t)
  unfolding non_null
  non_null-eq-ok q s h = ground arith

  finish-HasProtect :
      (o : MmapOptions) (protect : ℕ) (wide : ℕ × ℕ) (s : p.State) {m : Mmap} {t : p.State}
      → finish p o protect wide s ≡ (ok m, t)
      → HasProtect p k t m protect
  unfolding finish
  finish-HasProtect o protect wide s {m} h x lo hi =
      let (q, s3, got, h3) = >>=-eq-ok (obtain p o protect o.file wide) (located p o) s h in
      let (_, checked, e) = >>-pure-eq-ok (non_null p q) (mapping_at p o q) s3 h3 in
      let (ne, same) = non_null-eq-ok q s3 checked in
      let at_q : m.ptr ≡ q = ap (λ n. n.ptr) e in
      let sized : m.size ≡ o.size = ap (λ n. n.size) e in
      let given = obtain-HasProtect o protect o.file wide s got ne x (omega arith) (omega arith) in
      ap (λ r. k.protect_at r x) (sym same) ∙ given

  pub do_map-HasProtect :
      (o : MmapOptions) (protect : ℕ) (s : p.State) {m : Mmap} {t : p.State}
      → do_map p o protect s ≡ (ok m, t)
      → HasProtect p k t m protect
  unfolding do_map
  do_map-HasProtect o protect s h = finish-HasProtect o protect _ _ h
