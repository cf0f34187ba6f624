-- ===== src/Windows/Failure.antt =====
-- What a failure of `do_map` of src/os_impl/windows.rs leaves behind.
pub mod Examples
use mmap_rs.Common.{
  ℕ, ◌+◌, ◌/◌, ◌%◌, ◌^◌, ◌≤◌, ◌<◌, ◌≡◌, ◌≢◌, refl, ap, sym, ◌∙◌, true, false, Option, some, is_some,
}
use mmap_rs.Error.{Error, io, windows, ok, err, continue, convert_result, pure, ◌>>◌}
use mmap_rs.Windows.Platform.{File, Platform, status}
use mmap_rs.Windows.Kernel.{IsKernel}
use mmap_rs.Windows.Options.{MmapOptions}
use mmap_rs.Windows.Map.{
  add_if_huge, check_protection, create, do_map, finish, map_file, mapping_at, narrow, non_null,
  obtain, view, view_narrowed, widest,
}

-- What the code relies on of views: a view that was mapped is in memory, closing the handle of its
-- mapping object leaves it there, and so does a failure to change its protection.
pub record HasViews (p : Platform) (k : IsKernel p) : Type 0 where
  pub map_view_of_file-some :
      (h access high low n : ℕ) {s t : p.State} {q : ℕ} (x : ℕ)
      → p.map_view_of_file h access high low n s ≡ (q, t)
      → q ≢ 0
      → q ≤ x
      → x < q + n
      → is_some (k.protect_at t x) ≡ true
  pub close_handle-any :
      (h : ℕ) (s : p.State) (x : ℕ) → k.protect_at (p.close_handle h s).1 x ≡ k.protect_at s x
  pub virtual_protect-false :
      (a n protect : ℕ) {s t : p.State} (x : ℕ)
      → p.virtual_protect a n protect s ≡ (false, t)
      → k.protect_at t x ≡ k.protect_at s x

module _ (p : Platform) (k : IsKernel p) (v : HasViews p k) where
  -- The two checks: what they say of the file, and the state that they leave.
  abbrev pub checked : MmapOptions → p.State → (ℕ × ℕ) × p.State
  checked o s =
      let write = check_protection p o p.page_readwrite s in
      let execute = check_protection p o p.page_execute_read write.1 in
      (widest p write.0 execute.0, execute.1)

  narrowing :
      (o : MmapOptions) (offset protect access h : ℕ) {s1 s2 t : p.State} {q : ℕ}
      → view p h (add_if_huge p o p.file_map_large_pages access) offset o.size s1 ≡ (q, s2)
      → p.virtual_protect q o.size protect s2 ≡ (false, t)
      → view_narrowed p o offset protect access h s1 ≡ (err (io (p.last_os_error t)), t)
  unfolding view_narrowed
  narrowing o offset protect access h {q = q} viewed failed =
      ap (λ r. (narrow p r.0 o.size protect >> pure r.0) r.1) viewed
      ∙ ap (λ r. continue (λ _. pure q) (status p r)) failed

  obtaining :
      (o : MmapOptions) (protect : ℕ) (wide : ℕ × ℕ) (s : p.State) {file : File} {offset h : ℕ}
      {s1 t : p.State} {e : Error}
      → o.file ≡ some (file, offset)
      → create p o file wide.0 s ≡ (ok h, s1)
      → view_narrowed p o offset protect wide.1 h s1 ≡ (err e, t)
      → obtain p o protect o.file wide s ≡ (err e, t)
  unfolding obtain map_file
  obtaining o protect wide s {offset = offset} of_file created failed =
      ap (λ f. obtain p o protect f wide s) of_file
      ∙ ap (λ r. continue (view_narrowed p o offset protect wide.1) (convert_result windows r))
          created
      ∙ failed

  view-IsMapped :
      (h access offset n : ℕ) {s1 s2 : p.State} {q : ℕ} (x : ℕ)
      → view p h access offset n s1 ≡ (q, s2)
      → q ≢ 0
      → q ≤ x
      → x < q + n
      → is_some (k.protect_at s2 x) ≡ true
  view-IsMapped h access offset n {s1} {s2} {q} x viewed there lo hi =
      let m = p.map_view_of_file h access (offset / 2 ^ 32 % 2 ^ 32) (offset % 2 ^ 32) n s1 in
      let at_q : m.0 ≡ q = ap (λ r. r.0) viewed in
      let closed : (p.close_handle h m.1).1 ≡ s2 = ap (λ r. r.1) viewed in
      ap (λ s. is_some (k.protect_at s x)) (sym closed)
      ∙ ap is_some (v.close_handle-any h m.1 x)
      ∙ v.map_view_of_file-some h access _ _ n x (λ i. (at_q i, m.1)) there lo hi

  -- Where the functions of Windows do to memory what their laws say: if a view of the file has
  -- been mapped and `VirtualProtect` then fails, `do_map` returns its error, and every byte of
  -- the view is still in memory, although no mapping is returned that could free it.
  pub do_map-leaves_view :
      (o : MmapOptions) (protect : ℕ) (s : p.State) {file : File} {offset h q : ℕ}
      {s1 s2 t : p.State}
      → o.file ≡ some (file, offset)
      → create p o file (checked o s).0.0 (checked o s).1 ≡ (ok h, s1)
      → view p h (add_if_huge p o p.file_map_large_pages (checked o s).0.1) offset o.size s1
        ≡ (q, s2)
      → q ≢ 0
      → p.virtual_protect q o.size protect s2 ≡ (false, t)
      → (do_map p o protect s ≡ (err (io (p.last_os_error t)), t))
        × ((x : ℕ) → q ≤ x → x < q + o.size → is_some (k.protect_at t x) ≡ true)
  unfolding do_map finish
  do_map-leaves_view o protect s {file} {offset} {h} {q} {s1} {s2} {t} of_file created viewed there
        failed =
      (
        ap (continue (λ ptr. non_null p ptr >> pure (mapping_at p o ptr))) (
            obtaining o protect (checked o s).0 (checked o s).1 of_file created
              (narrowing o offset protect (checked o s).0.1 h viewed failed)),
        λ x lo hi.
            ap is_some (v.virtual_protect-false q o.size protect x failed)
            ∙ view-IsMapped h _ offset o.size x viewed there lo hi,
      )
