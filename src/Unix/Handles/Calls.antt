-- ===== src/Unix/Handles/Calls.antt =====
-- What the calls of src/mmap.rs over src/os_impl/unix.rs preserve, from what those of the latter do.
use mmap_rs.Common.{◌≡◌, refl, subst, sym, ap, ◌∙◌}
use mmap_rs.Error.{Error, Result, ok, err, continue}
use mmap_rs.Error.Preserves.{Preserves, >>-Preserves}
use mmap_rs.Backend.{Backend}
use mmap_rs.Mmap.Options.{MmapOptions}
use mmap_rs.Mmap.Handle
use mmap_rs.Mmap.Handle.{Handle, Conversion, inner, as_handle, convert_to}
use mmap_rs.Mmap.Ownership.{request, convert_to-Answers}
use mmap_rs.Unix.Platform.{Platform}
use mmap_rs.Unix.Kernel.{IsKernel}
use mmap_rs.Unix.Mapping.{Mmap}
use mmap_rs.Unix.Map.Protection
use mmap_rs.Unix.Map.Protection.{Access, no_access, read_only, exec, exec_mutable, map_as, make_as}
use mmap_rs.Unix.Calls.{Looks, flush_icache-Preserves}
use mmap_rs.Unix.Opened.{open_as, wrapped-eq-ok}
use mmap_rs.Unix.Backend.{unix}

module _ (b : Backend) {U : Type 0} (wrap : U → Handle b) (new : b.Mapping → U) where
  wrapped-state :
      (r : Result Error b.Mapping × b.State)
      → (as_handle wrap (continue (λ m s. (ok (new m), s)) r)).1 ≡ r.1
  wrapped-state (ok m, s) = refl
  wrapped-state (err e, s) = refl

  pub wrapped-inner :
      (r : Result Error b.Mapping × b.State) {h : Handle b} {t : b.State}
      → ((m : b.Mapping) → inner b (wrap (new m)) ≡ m)
      → as_handle wrap (continue (λ m s. (ok (new m), s)) r) ≡ (ok h, t)
      → r ≡ (ok (inner b h), t)
  wrapped-inner r {h} {t} same e =
      let (m, mapped, is) = wrapped-eq-ok b wrap new r e in
      mapped ∙ ap (λ n. (ok n, t)) (sym (same m) ∙ ap (inner b) is)

module _ (p : Platform) (o : MmapOptions (unix p)) (s : p.State) where
  open_as-state : (a : Access) → (open_as (unix p) a o s).1 ≡ (map_as p a o.inner s).1
  unfolding open_as
  open_as-state no_access = wrapped-state (unix p) _ _ (map_as p no_access o.inner s)
  open_as-state read_only = wrapped-state (unix p) _ _ (map_as p read_only o.inner s)
  open_as-state exec = wrapped-state (unix p) _ _ (map_as p exec o.inner s)
  open_as-state Protection.mutable =
      wrapped-state (unix p) _ _ (map_as p Protection.mutable o.inner s)
  open_as-state exec_mutable = wrapped-state (unix p) _ _ (map_as p exec_mutable o.inner s)

  -- The mapping that a wrapper owns is the one that was made.
  pub open_as-inner :
      (a : Access) {h : Handle (unix p)} {t : p.State}
      → open_as (unix p) a o s ≡ (ok h, t)
      → map_as p a o.inner s ≡ (ok (inner (unix p) h), t)
  unfolding open_as
  open_as-inner no_access e = wrapped-inner (unix p) _ _ _ (λ m. refl) e
  open_as-inner read_only e = wrapped-inner (unix p) _ _ _ (λ m. refl) e
  open_as-inner exec e = wrapped-inner (unix p) _ _ _ (λ m. refl) e
  open_as-inner Protection.mutable e = wrapped-inner (unix p) _ _ _ (λ m. refl) e
  open_as-inner exec_mutable e = wrapped-inner (unix p) _ _ _ (λ m. refl) e

module _ (p : Platform) (k : IsKernel p) {P : p.State → Type 0} where
  pub open_as-Preserves :
      (a : Access) (o : MmapOptions (unix p))
      → Preserves P (map_as p a o.inner)
      → Preserves P (open_as (unix p) a o)
  open_as-Preserves a o kept = record {
    holds_after = λ s h. subst P (sym (open_as-state p o s a)) (kept.holds_after s h);
  }

  request-Preserves :
      (m : Mmap)
      → Looks p k P
      → ((a : Access) → Preserves P (make_as p a m))
      → (c : Conversion) → Preserves P (request (unix p) c m)
  request-Preserves m looks kept Handle.to_none = kept no_access
  request-Preserves m looks kept Handle.to_read_only = kept read_only
  request-Preserves m looks kept Handle.to_exec =
      >>-Preserves _ _ (kept exec) (flush_icache-Preserves p k looks m)
  request-Preserves m looks kept Handle.to_exec_no_flush = kept exec
  request-Preserves m looks kept Handle.to_mut = kept Protection.mutable
  request-Preserves m looks kept Handle.to_exec_mut = kept exec_mutable

  pub convert_to-Preserves :
      (c : Conversion) (h : Handle (unix p))
      → Looks p k P
      → ((a : Access) → Preserves P (make_as p a (inner (unix p) h)))
      → Preserves P (convert_to (unix p) c h)
  convert_to-Preserves c h looks kept = record {
    holds_after = λ s holds.
        subst P (sym (convert_to-Answers (unix p) h c s).1)
          ((request-Preserves (inner (unix p) h) looks kept c).holds_after s holds);
  }
