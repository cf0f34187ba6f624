-- ===== src/Windows/Gated.antt =====
-- The flag `JIT` of src/os_impl/windows.rs as src/mmap.rs relies on it.
use mmap_rs.Common.{ℕ, ◌≡◌, ap, ◌∙◌, Bool, true, false, arith, if◌then◌else◌}
use mmap_rs.Error.{ok}
use mmap_rs.Error.Inversion.{>>=-eq-ok, >>-pure-eq-ok}
use mmap_rs.Bitflags.{IsLawful}
use mmap_rs.Flags.UnsafeMmapFlags
use mmap_rs.Mmap.Gated.{IsGated, map_with}
use mmap_rs.Unix.Map.Protection.{Access, no_access, read_only, exec, mutable, exec_mutable}
use mmap_rs.Windows.Platform.{Platform}
use mmap_rs.Windows.Options.{MmapOptions}
use mmap_rs.Windows.Mapping.{Mmap}
use mmap_rs.Windows.Mapping.Flags
use mmap_rs.Windows.Map
use mmap_rs.Windows.Map.{obtain, non_null, finish, do_map, remembered, mapping_at}
use mmap_rs.Windows.Protection.{located}
use mmap_rs.Windows.Access.{jit_only}
use mmap_rs.Windows.Jit.{map_exec_mut-refuses, make_exec_mut-refuses}
use mmap_rs.Windows.Backend.{windows}

module _ (p : Platform) (bits : IsLawful p.bitflags) where
  remembered-jit :
      (cow jit : Bool)
      → p.contains
          (let flags = if cow then p.union 0 Flags.copy_on_write else 0 in
            if jit then p.union flags Flags.jit else flags)
          Flags.jit
        ≡ jit
  remembered-jit cow true =
      ground
        (arith, bits.contains-union (if cow then p.union 0 1 else 0) 2 1, bits.contains-bit 1 1)
  remembered-jit true false =
      ground (arith, bits.contains-union 0 1 1, bits.contains-empty 1, bits.contains-bit 0 1)
  remembered-jit false false = bits.contains-empty 1

  finish-mapping_at :
      (o : MmapOptions) (protect : ℕ) (wide : ℕ × ℕ) (s : p.State) {m : Mmap} {t : p.State}
      → finish p o protect wide s ≡ (ok m, t)
      → (q : ℕ) × (m ≡ mapping_at p o q)
  unfolding finish
  finish-mapping_at o protect wide s h =
      let (q, s3, got, h3) = >>=-eq-ok (obtain p o protect o.file wide) (located p o) s h in
      let (_, checked, e) = >>-pure-eq-ok (non_null p q) (mapping_at p o q) s3 h3 in (q, e)

  remembers_jit :
      (o : MmapOptions) (protect : ℕ) (s : p.State) {m : Mmap} {t : p.State}
      → do_map p o protect s ≡ (ok m, t)
      → p.contains m.flags Flags.jit ≡ p.contains o.unsafe_flags UnsafeMmapFlags.jit
  unfolding do_map
  remembers_jit o protect s h =
      let (_, e) = finish-mapping_at o protect _ _ h in
      ap (λ n. p.contains n.flags Flags.jit) e ∙ remembered-jit _ _

  pub windows-keeps :
      (a : Access) (o : MmapOptions) (s : p.State) {m : Mmap} {t : p.State}
      → map_with (windows p) a o s ≡ (ok m, t)
      → p.contains m.flags Flags.jit ≡ p.contains o.unsafe_flags UnsafeMmapFlags.jit
  unfolding Map.map_none Map.map Map.map_exec Map.map_mut Map.map_exec_mut
  windows-keeps no_access o s h = remembers_jit o _ s h
  windows-keeps read_only o s h = remembers_jit o _ s h
  windows-keeps exec o s h = remembers_jit o _ s h
  windows-keeps mutable o s h = remembers_jit o _ s h
  windows-keeps exec_mutable o s h =
      remembers_jit o _ s (jit_only (p.contains o.unsafe_flags UnsafeMmapFlags.jit) _ _ s h)

  unfoldable pub windows-IsGated : IsGated (windows p)
  windows-IsGated = record {
    asks = λ o. p.contains o.unsafe_flags UnsafeMmapFlags.jit;
    keeps = λ m. p.contains m.flags Flags.jit;
    map_exec_mut-refuses = map_exec_mut-refuses p;
    make_exec_mut-refuses = make_exec_mut-refuses p;
    map-keeps = windows-keeps;
  }
