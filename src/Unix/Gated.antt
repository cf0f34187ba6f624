-- ===== src/Unix/Gated.antt =====
-- The flag `JIT` of src/os_impl/unix.rs as src/mmap.rs relies on it.
use mmap_rs.Common.{◌≡◌}
use mmap_rs.Error.{ok}
use mmap_rs.Bitflags.{IsLawful}
use mmap_rs.Flags.UnsafeMmapFlags
use mmap_rs.Mmap.Gated.{IsGated, map_with}
use mmap_rs.Unix.Platform.{Platform}
use mmap_rs.Unix.Options.{MmapOptions}
use mmap_rs.Unix.Mapping.{Mmap}
use mmap_rs.Unix.Mapping.Flags
use mmap_rs.Unix.Map.Protection.{Access, no_access, read_only, exec, mutable, exec_mutable}
use mmap_rs.Unix.Jit.{map_exec_mut-refuses, make_exec_mut-refuses, remembers_jit}
use mmap_rs.Unix.Backend.{unix}

module _ (p : Platform) (bits : IsLawful p.bitflags) where
  pub unix-keeps :
      (a : Access) (o : MmapOptions) (s : p.State) {m : Mmap} {t : p.State}
      → map_with (unix p) a o s ≡ (ok m, t)
      → p.contains m.flags Flags.jit ≡ p.contains o.unsafe_flags UnsafeMmapFlags.jit
  unix-keeps no_access o s h = remembers_jit p bits no_access o s h
  unix-keeps read_only o s h = remembers_jit p bits read_only o s h
  unix-keeps exec o s h = remembers_jit p bits exec o s h
  unix-keeps mutable o s h = remembers_jit p bits mutable o s h
  unix-keeps exec_mutable o s h = remembers_jit p bits exec_mutable o s h

  unfoldable pub unix-IsGated : IsGated (unix p)
  unix-IsGated = record {
    asks = λ o. p.contains o.unsafe_flags UnsafeMmapFlags.jit;
    keeps = λ m. p.contains m.flags Flags.jit;
    map_exec_mut-refuses = map_exec_mut-refuses p;
    make_exec_mut-refuses = make_exec_mut-refuses p;
    map-keeps = unix-keeps;
  }
