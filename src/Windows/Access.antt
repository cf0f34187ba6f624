-- ===== src/Windows/Access.antt =====
-- The five ways to map and the five ways to change a mapping of src/os_impl/windows.rs, and its end.
use mmap_rs.Common.{
  ℕ, ◌^◌, ◌≡◌, ◌≢◌, Bool, true, false, none, refl, arith, ◌&&◌, if◌then◌else◌, is_some,
}
use mmap_rs.Error.{Error, ok, Exec, raise}
use mmap_rs.Flags.MmapFlags
use mmap_rs.Flags.UnsafeMmapFlags
use mmap_rs.Unix.Map.Protection.{Access, no_access, read_only, exec, mutable, exec_mutable}
use mmap_rs.Windows.Platform.{Platform}
use mmap_rs.Windows.Kernel.{IsKernel}
use mmap_rs.Windows.Mapping
use mmap_rs.Windows.Mapping.{Mmap, do_make, drop}
use mmap_rs.Windows.Options.{MmapOptions}
use mmap_rs.Windows.Map
use mmap_rs.Windows.Map.{do_map}
use mmap_rs.Windows.Protection.{HasProtect, do_make-HasProtect, do_map-HasProtect}

pub jit_only :
    {S A : Type 0} (b : Bool) (call : Exec S Error A) (e : Error) (s : S) {a : A} {t : S}
    → (if b then call else raise e) s ≡ (ok a, t)
    → call s ≡ (ok a, t)
jit_only true call e s h = h
jit_only false call e s h = cc

module _ (p : Platform) where
  abbrev pub map_as : Access → MmapOptions → Exec p.State Error Mmap
  map_as no_access = Map.map_none p
  map_as read_only = Map.map p
  map_as exec = Map.map_exec p
  map_as mutable = Map.map_mut p
  map_as exec_mutable = Map.map_exec_mut p

  abbrev pub make_as : Access → Mmap → Exec p.State Error Unit
  make_as no_access = Mapping.make_none p
  make_as read_only = Mapping.make_read_only p
  make_as exec = Mapping.make_exec p
  make_as mutable = Mapping.make_mut p
  make_as exec_mutable = Mapping.make_exec_mut p

  -- The protection for each kind of access, by whether it is copied on write and backed by a file.
  abbrev pub protect_of : Access → Bool → Bool → ℕ
  protect_of no_access cow file = p.page_noaccess
  protect_of read_only cow file = p.page_readonly
  protect_of exec cow file = p.page_execute_read
  protect_of mutable cow file = if file && cow then p.page_writecopy else p.page_readwrite
  protect_of exec_mutable cow file =
      if cow then p.page_execute_writecopy else p.page_execute_readwrite

  abbrev pub is_copied : Mmap → Bool
  is_copied m = p.contains m.flags Mapping.Flags.copy_on_write

module _ (p : Platform) (k : IsKernel p) where
  -- Where the functions of Windows do to memory what their laws say, `VirtualAlloc` only if it
  -- is asked to commit: whichever of the five functions maps, if it succeeds then every byte of
  -- the mapping that it returns has the protection of that function: to write, pages of a file
  -- are copied if the options say so, and to write and execute, all pages are.
  pub map_as-HasProtect :
      (a : Access) (o : MmapOptions) (s : p.State) {m : Mmap} {t : p.State}
      → map_as p a o s ≡ (ok m, t)
      → HasProtect p k t m
          (protect_of p a (p.contains o.flags MmapFlags.copy_on_write) (is_some o.file))
  unfolding Map.map_none Map.map Map.map_exec Map.map_mut Map.map_exec_mut
  map_as-HasProtect exec_mutable o s h =
      do_map-HasProtect p k o _ s (jit_only (p.contains o.unsafe_flags UnsafeMmapFlags.jit) _ _ s h)
  map_as-HasProtect no_access o s h = do_map-HasProtect p k o _ s h
  map_as-HasProtect read_only o s h = do_map-HasProtect p k o _ s h
  map_as-HasProtect exec o s h = do_map-HasProtect p k o _ s h
  map_as-HasProtect mutable o s h = do_map-HasProtect p k o _ s h

  -- Where the functions of Windows do to memory what their laws say: whichever of the four
  -- functions other than `make_read_only` changes a mapping, if it succeeds then every byte of
  -- the mapping has the protection of that function.
  pub make_as-HasProtect :
      (a : Access) (m : Mmap) (s : p.State) {t : p.State}
      → make_as p a m s ≡ (ok tt, t)
      → a ≢ read_only
      → HasProtect p k t m (protect_of p a (is_copied p m) (is_some m.file))
  unfolding Mapping.make_none Mapping.make_exec Mapping.make_mut Mapping.make_exec_mut
  make_as-HasProtect exec_mutable m s h ne =
      do_make-HasProtect p k m _ s (jit_only (p.contains m.flags Mapping.Flags.jit) _ _ s h)
  make_as-HasProtect no_access m s h ne = do_make-HasProtect p k m _ s h
  make_as-HasProtect read_only m s h ne = absurd (ne refl)
  make_as-HasProtect exec m s h ne = do_make-HasProtect p k m _ s h
  make_as-HasProtect mutable m s h ne = do_make-HasProtect p k m _ s h

  -- Where the functions of Windows do to memory what their laws say: after `make_read_only` has
  -- succeeded on a mapping that is not of a file that is copied on write, every byte has the
  -- protection `PAGE_READWRITE`, and `make_mut` would have done the same.
  pub make_read_only-writable :
      (m : Mmap) (s : p.State) {t : p.State}
      → Mapping.make_read_only p m s ≡ (ok tt, t)
      → (is_some m.file && is_copied p m) ≡ false
      → HasProtect p k t m p.page_readwrite × (Mapping.make_mut p m s ≡ (ok tt, t))
  unfolding Mapping.make_read_only Mapping.make_mut
  make_read_only-writable m s h shared =
      (do_make-HasProtect p k m p.page_readwrite s h, rw shared h)

  -- Where `VirtualFree` refuses to release with a size that is not 0: the end of a mapping that
  -- is not backed by a file and has a size frees nothing, every address keeps its protection.
  pub drop-keeps :
      (m : Mmap) (s : p.State)
      → m.file ≡ none
      → m.size ≢ 0
      → (x : ℕ) → k.protect_at (drop p m s) x ≡ k.protect_at s x
  unfolding drop
  drop-keeps m s anonymous sized x =
      let releases : p.contains (p.union p.mem_decommit p.mem_release) p.mem_release ≡ true =
        rw k.mem_release-pow (
          ground (
            arith,
            k.bits.contains-union p.mem_decommit (2 ^ k.release_bit) k.release_bit,
            k.bits.contains-bit k.release_bit k.release_bit,
          )) in
      rw anonymous (k.virtual_free-sized m.ptr m.size _ s sized releases x)
