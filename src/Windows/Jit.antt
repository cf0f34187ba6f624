-- ===== src/Windows/Jit.antt =====
-- The flag `JIT` of src/os_impl/windows.rs, and the errors of its functions that map.
use mmap_rs.Common.{
  ℕ, ◌≡◌, ◌≢◌, ◌↔◌, inl, inr, refl, sym, Bool, true, false, Option, none, some, arith,
  if◌then◌else◌,
}
use mmap_rs.Error.{Error, unsafe_flag_needed, windows, err, Exec, pure, raise, convert, ◌>>=◌}
use mmap_rs.Error.Inversion.{>>=-eq-err, convert-eq-err}
use mmap_rs.Flags.UnsafeMmapFlags
use mmap_rs.Windows.Platform.{File, Platform, status}
use mmap_rs.Windows.Mapping.{Mmap, do_make, make_exec_mut}
use mmap_rs.Windows.Mapping.Flags
use mmap_rs.Windows.Options.{MmapOptions}
use mmap_rs.Windows.Map.{
  narrow, create, view_narrowed, map_file, allocate, obtain, non_null, finish, do_map, map_exec_mut,
  mapping_at,
}

abbrev needs_jit : Error
needs_jit = unsafe_flag_needed UnsafeMmapFlags.jit

-- The call never asks for the flag.
record IsPlain {S A : Type 0} (call : Exec S Error A) : Type 0 where
  other : (s : S) (t : S) → call s ≢ (err needs_jit, t)

module _ {S : Type 0} where
  pure-IsPlain : {A : Type 0} (a : A) → IsPlain (pure {S = S} {E = Error} a)
  pure-IsPlain a = record { other = λ s t h. cc }

  convert-IsPlain :
      {A : Type 0} (g : ℕ → Error) (m : Exec S ℕ A)
      → ((n : ℕ) → g n ≢ needs_jit)
      → IsPlain (convert g m)
  convert-IsPlain g m ne = record {
    other = λ s t h. let (n, _, is) = convert-eq-err g m s h in ne n (sym is);
  }

  >>=-IsPlain :
      {A B : Type 0} (m : Exec S Error A) (f : A → Exec S Error B)
      → IsPlain m
      → ((a : A) → IsPlain (f a))
      → IsPlain (m >>= f)
  >>=-IsPlain m f hm hf = record {
    other = λ s t h. elim (>>=-eq-err m f s h) [
      | inl first ↦ hm.other s t first
      | inr (a, s1, _, second) ↦ (hf a).other s1 t second
    ];
  }

  if-IsPlain :
      {A : Type 0} (b : Bool) (m : Exec S Error A) (s : S)
      → IsPlain m
      → ((if b then m else raise needs_jit) s ≡ (err needs_jit, s)) ↔ (b ≡ false)
  if-IsPlain true m s hm = (λ h. absurd (hm.other s s h), λ h. cc)
  if-IsPlain false m s hm = (λ h. refl, λ h. refl)

module _ (p : Platform) where
  status-other : (r : Bool × p.State) (t : p.State) → status p r ≢ (err needs_jit, t)
  status-other (true, s) t h = cc
  status-other (false, s) t h = cc

  narrow-IsPlain : (ptr size protect : ℕ) → IsPlain (narrow p ptr size protect)
  narrow-IsPlain ptr size protect = record {
    other = λ s t h. status-other (p.virtual_protect ptr size protect s) t h;
  }

  do_make-IsPlain : (m : Mmap) (protect : ℕ) → IsPlain (do_make p m protect)
  unfolding do_make
  do_make-IsPlain m protect = record {
    other = λ s t h. status-other (p.virtual_protect m.ptr m.size protect s) t h;
  }

  view_narrowed-IsPlain :
      (o : MmapOptions) (offset protect access mapping : ℕ)
      → IsPlain (view_narrowed p o offset protect access mapping)
  unfolding view_narrowed
  view_narrowed-IsPlain o offset protect access mapping = record {
    other = λ s t h.
        (>>=-IsPlain (narrow p _ o.size protect) _ (narrow-IsPlain _ o.size protect)
            λ _. pure-IsPlain _).other
          _ t h;
  }

  obtain-IsPlain :
      (o : MmapOptions) (protect : ℕ) (file : Option (File × ℕ)) (wide : ℕ × ℕ)
      → IsPlain (obtain p o protect file wide)
  unfolding obtain map_file allocate
  obtain-IsPlain o protect none wide = record { other = λ s t h. cc }
  obtain-IsPlain o protect (some (file, offset)) (map_protect, access) =
      >>=-IsPlain (convert windows (create p o file map_protect)) _
        (convert-IsPlain windows (create p o file map_protect) λ n h. cc)
        λ mapping. view_narrowed-IsPlain o offset protect access mapping

  non_null-IsPlain : (q : ℕ) → IsPlain (non_null p q)
  unfolding non_null
  non_null-IsPlain q = record { other = λ s t h. ground arith }

  do_map-IsPlain : (o : MmapOptions) (protect : ℕ) → IsPlain (do_map p o protect)
  unfolding do_map finish
  do_map-IsPlain o protect = record {
    other = λ s t h.
        (>>=-IsPlain (obtain p o protect o.file _) _ (obtain-IsPlain o protect o.file _) λ q.
            >>=-IsPlain (non_null p q) _ (non_null-IsPlain q)
              λ _. pure-IsPlain (mapping_at p o q)).other
          _ t h;
  }

  pub map_exec_mut-refuses :
      (o : MmapOptions) (s : p.State)
      → (map_exec_mut p o s ≡ (err needs_jit, s))
        ↔ (p.contains o.unsafe_flags UnsafeMmapFlags.jit ≡ false)
  unfolding map_exec_mut
  map_exec_mut-refuses o s = if-IsPlain _ _ s (do_map-IsPlain o _)

  pub make_exec_mut-refuses :
      (m : Mmap) (s : p.State)
      → (make_exec_mut p m s ≡ (err needs_jit, s)) ↔ (p.contains m.flags Flags.jit ≡ false)
  unfolding make_exec_mut
  make_exec_mut-refuses m s = if-IsPlain _ _ s (do_make-IsPlain m _)

  -- On Windows, `map_exec_mut` and `make_exec_mut` ask for the flag `JIT`, and leave the state
  -- of the system as it was, exactly when the options, or the flags that the mapping remembers,
  -- lack it.
  pub exec_mut-refuses :
      (o : MmapOptions) (m : Mmap) (s : p.State)
      → ((map_exec_mut p o s ≡ (err needs_jit, s))
          ↔ (p.contains o.unsafe_flags UnsafeMmapFlags.jit ≡ false))
        × ((make_exec_mut p m s ≡ (err needs_jit, s)) ↔ (p.contains m.flags Flags.jit ≡ false))
  exec_mut-refuses o m s = (map_exec_mut-refuses o s, make_exec_mut-refuses m s)
