-- ===== src/Mmap/Gated.antt =====
-- The flag `JIT` of src/mmap.rs: what it relies on of its `platform` module, and what its own options
-- and mappings make of it.
pub mod Examples
use mmap_rs.Common.{◌≡◌, ◌↔◌, refl, sym, ap, ◌∙◌, subst, Bool, false}
use mmap_rs.Error.{Error, unsafe_flag_needed, Result, ok, err, Exec, continue}
use mmap_rs.Backend.{Backend}
use mmap_rs.Flags.UnsafeMmapFlags
use mmap_rs.Mmap.{retype}
use mmap_rs.Mmap.Options
use mmap_rs.Mmap.Options.{MmapOptions}
use mmap_rs.Mmap.Handle
use mmap_rs.Mmap.Handle.{Handle, Conversion, inner, to_exec_mut, as_handle, convert_to}
use mmap_rs.Mmap.Ownership.{convert_to-inner, convert_to-old}
use mmap_rs.Unix.Map.Protection
use mmap_rs.Unix.Map.Protection.{Access, no_access, read_only, exec, exec_mutable}
use mmap_rs.Unix.Opened.{open_as}
use mmap_rs.Unix.Handles.Calls.{wrapped-inner}

abbrev pub needs_jit : Error
needs_jit = unsafe_flag_needed UnsafeMmapFlags.jit

-- The method of the platform that maps with each kind of access.
abbrev pub map_with : (b : Backend) → Access → b.Options → Exec b.State Error b.Mapping
map_with b no_access = b.map_none
map_with b read_only = b.map
map_with b exec = b.map_exec
map_with b Protection.mutable = b.map_mut
map_with b exec_mutable = b.map_exec_mut

-- A platform tests the flag before it calls the system, and its mappings remember the flag of the
-- options that made them.
pub record IsGated (b : Backend) : Type 0 where
  pub asks : b.Options → Bool
  pub keeps : b.Mapping → Bool
  pub map_exec_mut-refuses :
      (o : b.Options) (s : b.State) → (b.map_exec_mut o s ≡ (err needs_jit, s)) ↔ (asks o ≡ false)
  pub make_exec_mut-refuses :
      (m : b.Mapping) (s : b.State) → (b.make_exec_mut m s ≡ (err needs_jit, s)) ↔ (keeps m ≡ false)
  pub map-keeps :
      (a : Access) (o : b.Options) (s : b.State) {m : b.Mapping} {t : b.State}
      → map_with b a o s ≡ (ok m, t)
      → keeps m ≡ asks o

-- What the owner of a mapping has of it after any conversions, of which some may have failed and
-- given it back.
pub data Later (b : Backend) (h : Handle b) : Handle b → Type 0 where
  same : Later b h h
  converted :
      {g g' : Handle b} (c : Conversion) (s t : b.State)
      → Later b h g
      → convert_to b c g s ≡ (ok g', t)
      → Later b h g'
  given_back :
      {g g' : Handle b} (c : Conversion) (e : Error) (s t : b.State)
      → Later b h g
      → convert_to b c g s ≡ (err (g', e), t)
      → Later b h g'

Later-inner : (b : Backend) {h g : Handle b} → Later b h g → inner b g ≡ inner b h
Later-inner b same = refl
Later-inner b (converted {g} c s t past done) = convert_to-inner b g c s done ∙ Later-inner b past
Later-inner b (given_back {g} c e s t past done) =
    ap (inner b) (convert_to-old b g c s done) ∙ Later-inner b past

module _ (b : Backend) {U : Type 0} (wrap : U → Handle b) where
  retype-refuses :
      (h : Handle b) (new : U) (r : Result Error Unit × b.State) (e : Error) (t : b.State)
      → (as_handle wrap (retype b (inner b) h new r) ≡ (err (h, e), t)) ↔ (r ≡ (err e, t))
  retype-refuses h new (ok _, s) e t = (λ q. cc, λ q. cc)
  retype-refuses h new (err d, s) e t = (λ q. cc, λ q. cc)

  wrapped-refuses :
      (new : b.Mapping → U) (r : Result Error b.Mapping × b.State) (e : Error) (t : b.State)
      → (as_handle wrap (continue (λ m s. (ok (new m), s)) r) ≡ (err e, t)) ↔ (r ≡ (err e, t))
  wrapped-refuses new (ok m, s) e t = (λ q. cc, λ q. cc)
  wrapped-refuses new (err d, s) e t = (λ q. cc, λ q. cc)

module _ (b : Backend) (o : MmapOptions b) (s : b.State) where
  opened-mapped :
      (a : Access) {h : Handle b} {t : b.State}
      → open_as b a o s ≡ (ok h, t)
      → map_with b a o.inner s ≡ (ok (inner b h), t)
  unfolding open_as Options.map_none Options.map Options.map_exec Options.map_mut
      Options.map_exec_mut
  opened-mapped no_access e = wrapped-inner b _ _ _ (λ m. refl) e
  opened-mapped read_only e = wrapped-inner b _ _ _ (λ m. refl) e
  opened-mapped exec e = wrapped-inner b _ _ _ (λ m. refl) e
  opened-mapped Protection.mutable e = wrapped-inner b _ _ _ (λ m. refl) e
  opened-mapped exec_mutable e = wrapped-inner b _ _ _ (λ m. refl) e

module _ (b : Backend) (gated : IsGated b) where
  open_refuses :
      (o : MmapOptions b) (s : b.State)
      → (open_as b exec_mutable o s ≡ (err needs_jit, s)) ↔ (gated.asks o.inner ≡ false)
  unfolding open_as Options.map_exec_mut
  open_refuses o s =
      let (to, back) = wrapped-refuses b Handle.mutable _ (b.map_exec_mut o.inner s) needs_jit s in
      let (lacks, refused) = gated.map_exec_mut-refuses o.inner s in
      (λ e. lacks (to e), λ e. back (refused e))

  convert_refuses :
      (g : Handle b) (s : b.State)
      → (convert_to b to_exec_mut g s ≡ (err (g, needs_jit), s)) ↔ (gated.keeps (inner b g) ≡ false)
  unfolding convert_to
  convert_refuses g s =
      let (to, back) =
        retype-refuses b Handle.mutable g _ (b.make_exec_mut (inner b g) s) needs_jit s in
      let (lacks, refused) = gated.make_exec_mut-refuses (inner b g) s in
      (λ e. lacks (to e), λ e. back (refused e))

  -- Where the platform tests the flag `JIT` before it calls the system, and its mappings
  -- remember the flag of their options, as on Unix and on Windows: if options were opened in
  -- any of the five ways, then, after any conversions of the mapping, of which some may have
  -- failed and given it back, `map_exec_mut` of the options and `make_exec_mut` of the mapping
  -- ask for the flag, leave the state of the system as it is at that later time, and the latter
  -- gives the mapping back, exactly when the options lacked the flag.
  pub opened-refuses :
      (a : Access) (o : MmapOptions b) (s : b.State) {h g : Handle b} {t : b.State}
      → open_as b a o s ≡ (ok h, t)
      → Later b h g
      → (later : b.State)
      → ((open_as b exec_mutable o later ≡ (err needs_jit, later)) ↔ (gated.asks o.inner ≡ false))
        × ((convert_to b to_exec_mut g later ≡ (err (g, needs_jit), later))
            ↔ (gated.asks o.inner ≡ false))
  opened-refuses a o s {h} {g} made past later =
      let remembered : gated.keeps (inner b g) ≡ gated.asks o.inner =
        ap gated.keeps (Later-inner b past)
        ∙ gated.map-keeps a o.inner s (opened-mapped b o s a made) in
      (open_refuses o later, rw (← remembered) (convert_refuses g later))
