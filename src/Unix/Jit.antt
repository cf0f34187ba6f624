-- ===== src/Unix/Jit.antt =====
-- The flag `JIT` of src/os_impl/unix.rs, and the errors of its functions that map.
use mmap_rs.Common.{ℕ, ◌≡◌, ◌↔◌, inl, inr, refl, ap, ◌∙◌, Bool, true, false, arith, if◌then◌else◌}
use mmap_rs.Error.{Error, unsafe_flag_needed, nix, ok, err, Exec, raise, convert, ◌>>=◌}
use mmap_rs.Error.Inversion.{>>=-eq-err, convert-eq-err}
use mmap_rs.Bitflags.{IsLawful}
use mmap_rs.Flags.UnsafeMmapFlags
use mmap_rs.Unix.Platform.{Platform}
use mmap_rs.Unix.Options.{MmapOptions}
use mmap_rs.Unix.Mapping
use mmap_rs.Unix.Mapping.{Mmap, do_make, make_exec_mut}
use mmap_rs.Unix.Map.{call_if, advise, mmap_call, nix_mmap, do_map, map_exec_mut}
use mmap_rs.Unix.Map.Outcome.{do_map-eq-ok}
use mmap_rs.Unix.Map.Protection.{Access, map_as, map_as-eq-ok}

-- The call fails with errors of the operating system alone.
abbrev FailsWithErrno : {S A : Type 0} → Exec S Error A → Type 0
FailsWithErrno {S} m = (s : S) (e : Error) (t : S) → m s ≡ (err e, t) → (n : ℕ) × (e ≡ nix n)

module _ {S : Type 0} where
  convert-FailsWithErrno : {A : Type 0} (m : Exec S ℕ A) → FailsWithErrno (convert nix m)
  convert-FailsWithErrno m s e t h = let (n, _, is) = convert-eq-err nix m s h in (n, is)

  >>=-FailsWithErrno :
      {A B : Type 0} (m : Exec S Error A) (f : A → Exec S Error B)
      → FailsWithErrno m
      → ((a : A) → FailsWithErrno (f a))
      → FailsWithErrno (m >>= f)
  >>=-FailsWithErrno m f hm hf s e t h = elim (>>=-eq-err m f s h) [
    | inl first ↦ hm s e t first
    | inr (a, s1, _, second) ↦ hf a s1 e t second
  ]

module _ (p : Platform) where
  call_if-FailsWithErrno :
      (b : Bool) (call : Exec p.State ℕ Unit) → FailsWithErrno (call_if p b call)
  unfolding call_if
  call_if-FailsWithErrno true call = convert-FailsWithErrno call
  call_if-FailsWithErrno false call = λ s e t h. cc

  advise-FailsWithErrno : (o : MmapOptions) (q : ℕ) → FailsWithErrno (advise p o q)
  unfolding advise
  advise-FailsWithErrno o q = >>=-FailsWithErrno (call_if p _ _) _ (call_if-FailsWithErrno _ _) λ _.
      >>=-FailsWithErrno (call_if p _ _) _ (call_if-FailsWithErrno _ _)
        λ _. call_if-FailsWithErrno _ _

  do_map-FailsWithErrno : (o : MmapOptions) (prot : ℕ) → FailsWithErrno (do_map p o prot)
  unfolding do_map mmap_call
  do_map-FailsWithErrno o prot =
      >>=-FailsWithErrno (mmap_call p o prot) _ (convert-FailsWithErrno (nix_mmap p o prot))
        λ q. >>=-FailsWithErrno (advise p o q) _ (advise-FailsWithErrno o q) λ _ s e t h. cc

  do_make-FailsWithErrno : (m : Mmap) (prot : ℕ) → FailsWithErrno (do_make p m prot)
  unfolding do_make
  do_make-FailsWithErrno m prot = convert-FailsWithErrno (p.mprotect m.ptr m.size prot)

-- A call behind a test of the flag is refused at once, or fails as the system says.
gate :
    {S A : Type 0} (b : Bool) (call : Exec S Error A) (s : S)
    → FailsWithErrno call
    → ((if b then call else raise (unsafe_flag_needed UnsafeMmapFlags.jit)) s
        ≡ (err (unsafe_flag_needed UnsafeMmapFlags.jit), s))
      ↔ (b ≡ false)
gate true call s fails = (λ h. let (n, is) = fails s _ s h in cc, λ h. cc)
gate false call s fails = (λ h. refl, λ h. refl)

module _ (p : Platform) where
  -- `map_exec_mut` asks for the flag `JIT`, and leaves the state of the system as it was,
  -- exactly when the options lack the flag.
  pub map_exec_mut-refuses :
      (o : MmapOptions) (s : p.State)
      → (map_exec_mut p o s ≡ (err (unsafe_flag_needed UnsafeMmapFlags.jit), s))
        ↔ (p.contains o.unsafe_flags UnsafeMmapFlags.jit ≡ false)
  unfolding map_exec_mut
  map_exec_mut-refuses o s = gate _ _ s (do_map-FailsWithErrno p o _)

  pub make_exec_mut-refuses :
      (m : Mmap) (s : p.State)
      → (make_exec_mut p m s ≡ (err (unsafe_flag_needed UnsafeMmapFlags.jit), s))
        ↔ (p.contains m.flags Mapping.Flags.jit ≡ false)
  unfolding make_exec_mut
  make_exec_mut-refuses m s = gate _ _ s (do_make-FailsWithErrno p m _)

  remembered-jit :
      IsLawful p.bitflags
      → (b : Bool) → p.contains (if b then p.union 0 Mapping.Flags.jit else 0) Mapping.Flags.jit ≡ b
  remembered-jit bits true =
      ground (arith, bits.contains-union 0 1 0, bits.contains-empty 0, bits.contains-bit 0 0)
  remembered-jit bits false = bits.contains-empty 0

  pub remembers_jit :
      IsLawful p.bitflags
      → (a : Access) (o : MmapOptions) (s : p.State) {m : Mmap} {t : p.State}
      → map_as p a o s ≡ (ok m, t)
      → p.contains m.flags Mapping.Flags.jit ≡ p.contains o.unsafe_flags UnsafeMmapFlags.jit
  remembers_jit bits a o s h =
      let (_, _, _, _, e) = do_map-eq-ok p o _ s (map_as-eq-ok p a o s h) in
      ap (λ n. p.contains n.flags Mapping.Flags.jit) e ∙ remembered-jit bits _

  -- Where the operations on flags are lawful: of a mapping that any of the five functions made,
  -- `make_exec_mut` is refused for want of the flag `JIT`, at any later time and with the state
  -- as it was, exactly when the options of the mapping lacked the flag.
  pub make_exec_mut-refuses_mapped :
      IsLawful p.bitflags
      → (a : Access) (o : MmapOptions) (s : p.State) {m : Mmap} {t : p.State}
      → map_as p a o s ≡ (ok m, t)
      → (later : p.State)
      → (make_exec_mut p m later ≡ (err (unsafe_flag_needed UnsafeMmapFlags.jit), later))
        ↔ (p.contains o.unsafe_flags UnsafeMmapFlags.jit ≡ false)
  make_exec_mut-refuses_mapped bits a o s {m} h later =
      rw (← remembers_jit bits a o s h) (make_exec_mut-refuses m later)
