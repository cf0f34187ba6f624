-- ===== src/Windows/Handles.antt =====
-- The handles that `do_map` of src/os_impl/windows.rs opens and closes.
use mmap_rs.Common.{
  ℕ, ◌≡◌, refl, ◌∙◌, Bool, true, false, Option, none, some, arith, Bool-cases, inl, inr,
}
use mmap_rs.Error.{Error, windows, Result, ok, err, Exec, pure, convert, continue, ◌>>=◌}
use mmap_rs.Windows.Platform.{File, Platform, status}
use mmap_rs.Windows.Kernel.{HasHandles}
use mmap_rs.Windows.Options.{MmapOptions}
use mmap_rs.Windows.Map.{
  probed, probe, check_protection, widest, narrow, view_narrowed, create, finish, map_file,
  allocate, obtain, non_null, do_map, mapping_at,
}

-- The call leaves as many handles open as it finds.
record IsBalanced (p : Platform) (k : HasHandles p) {A : Type 0} (call : Exec p.State Error A)
    : Type 0 where
  kept : (s : p.State) → k.handles (call s).1 ≡ k.handles s

module _ (p : Platform) (k : HasHandles p) where
  pure-IsBalanced : {A : Type 0} (a : A) → IsBalanced p k (pure a)
  pure-IsBalanced a = record { kept = λ s. refl }

  continue-handles :
      {A B : Type 0} (f : A → Exec p.State Error B) (r : Result Error A × p.State) (n : ℕ)
      → ((a : A) → IsBalanced p k (f a))
      → k.handles r.1 ≡ n
      → k.handles (continue f r).1 ≡ n
  continue-handles f (ok a, s) n hf h = (hf a).kept s ∙ h
  continue-handles f (err e, s) n hf h = h

  >>=-IsBalanced :
      {A B : Type 0} (m : Exec p.State Error A) (f : A → Exec p.State Error B)
      → IsBalanced p k m
      → ((a : A) → IsBalanced p k (f a))
      → IsBalanced p k (m >>= f)
  >>=-IsBalanced m f hm hf = record {
    kept = λ s. continue-handles f (m s) (k.handles s) hf (hm.kept s);
  }

  status-handles : (r : Bool × p.State) → k.handles (status p r).1 ≡ k.handles r.1
  status-handles (true, s) = refl
  status-handles (false, s) = refl

  closed :
      (file protect high low : ℕ) (s t u : p.State) (h : ℕ)
      → p.create_file_mapping file protect high low s ≡ (ok h, t)
      → k.handles u ≡ k.handles t
      → k.handles (p.close_handle h u).1 ≡ k.handles s
  closed file protect high low s t u h made same = elim (Bool-cases (p.is_invalid h)) [
    | inl invalid ↦
        k.close-invalid h u invalid ∙ same ∙ k.create-invalid file protect high low made invalid
    | inr valid ↦
        k.close-valid h u valid ∙ omega (arith, same, k.create-ok file protect high low made valid)
  ]

  probed-handles :
      (file protect : ℕ) (s : p.State) (r : Result ℕ ℕ × p.State)
      → p.create_file_mapping file protect 0 0 s ≡ r
      → k.handles (probed p r).1 ≡ k.handles s
  probed-handles file protect s (err e, t) made = k.create-err file protect 0 0 made
  probed-handles file protect s (ok h, t) made = elim (Bool-cases (p.is_invalid h)) [
    | inl invalid ↦ rw invalid (k.create-invalid file protect 0 0 made invalid)
    | inr valid ↦ rw valid (closed file protect 0 0 s t t h made refl)
  ]

  probe-handles :
      (file : Option (File × ℕ)) (protect : ℕ) (s : p.State)
      → k.handles (probe p file protect s).1 ≡ k.handles s
  probe-handles none protect s = refl
  probe-handles (some (file, offset)) protect s =
      probed-handles file.raw_handle protect s (p.create_file_mapping file.raw_handle protect 0 0 s)
        refl

  narrow-IsBalanced : (ptr size protect : ℕ) → IsBalanced p k (narrow p ptr size protect)
  narrow-IsBalanced ptr size protect = record {
    kept = λ s.
        status-handles (p.virtual_protect ptr size protect s)
        ∙ k.virtual_protect-any ptr size protect s;
  }

  non_null-IsBalanced : (ptr : ℕ) → IsBalanced p k (non_null p ptr)
  unfolding non_null
  non_null-IsBalanced ptr = record { kept = λ s. ground arith }

  allocate-IsBalanced : (o : MmapOptions) (protect : ℕ) → IsBalanced p k (allocate p o protect)
  unfolding allocate
  allocate-IsBalanced o protect = record { kept = λ s. k.virtual_alloc-any _ _ _ _ s }

  -- From the creation of the mapping object to the end of `map_file`.
  viewed-handles :
      (o : MmapOptions) (file : File) (offset protect access : ℕ) (map_protect : ℕ) (s : p.State)
      (r : Result ℕ ℕ × p.State)
      → create p o file map_protect s ≡ r
      → k.handles
          (continue (view_narrowed p o offset protect access) (convert windows (λ _. r) s)).1
        ≡ k.handles s
  unfolding view_narrowed
  viewed-handles o file offset protect access map_protect s (err e, t) made =
      k.create-err _ _ _ _ made
  viewed-handles o file offset protect access map_protect s (ok h, t) made =
      (>>=-IsBalanced (narrow p _ o.size protect) _ (narrow-IsBalanced _ o.size protect)
          (λ _. pure-IsBalanced _)).kept
        _
      ∙ closed _ _ _ _ s t _ h made (k.map_view_of_file-any h _ _ _ o.size t)

  map_file-IsBalanced :
      (o : MmapOptions) (file : File) (offset protect : ℕ) (wide : ℕ × ℕ)
      → IsBalanced p k (map_file p o file offset protect wide)
  unfolding map_file
  map_file-IsBalanced o file offset protect (map_protect, access) = record {
    kept = λ s.
        viewed-handles o file offset protect access map_protect s (create p o file map_protect s)
          refl;
  }

  obtain-IsBalanced :
      (o : MmapOptions) (protect : ℕ) (file : Option (File × ℕ)) (wide : ℕ × ℕ)
      → IsBalanced p k (obtain p o protect file wide)
  unfolding obtain
  obtain-IsBalanced o protect none wide = allocate-IsBalanced o protect
  obtain-IsBalanced o protect (some (file, offset)) wide =
      map_file-IsBalanced o file offset protect wide

  finish-IsBalanced :
      (o : MmapOptions) (protect : ℕ) (wide : ℕ × ℕ) → IsBalanced p k (finish p o protect wide)
  unfolding finish
  finish-IsBalanced o protect wide =
      >>=-IsBalanced (obtain p o protect o.file wide) _ (obtain-IsBalanced o protect o.file wide)
        λ ptr.
          >>=-IsBalanced (non_null p ptr) _ (non_null-IsBalanced ptr)
            λ _. pure-IsBalanced (mapping_at p o ptr)

  -- Where creating a file mapping opens one handle and closing it closes one: whatever the
  -- functions of Windows answer, and whether it returns a mapping or an error, `do_map` leaves
  -- as many handles open as it finds, those of the two checks and of the mapping closed.
  pub do_map-handles :
      (o : MmapOptions) (protect : ℕ) (s : p.State)
      → k.handles (do_map p o protect s).1 ≡ k.handles s
  unfolding do_map check_protection
  do_map-handles o protect s =
      let write = probe p o.file p.page_readwrite s in
      let execute = probe p o.file p.page_execute_read write.1 in
      (finish-IsBalanced o protect (widest p write.0 execute.0)).kept execute.1
      ∙ probe-handles o.file p.page_execute_read write.1
      ∙ probe-handles o.file p.page_readwrite s
