-- ===== src/Unix/Process/Exclusive.antt =====
-- Pages that are writable and executable at once, over the steps of a process that uses
-- src/os_impl/unix.rs.
use mmap_rs.Common.{ℕ, ◌≡◌, ap, subst, false, arith, All, All-middle}
use mmap_rs.Error.{ok}
use mmap_rs.Flags.UnsafeMmapFlags
use mmap_rs.Unix.Platform.{Platform}
use mmap_rs.Unix.Options.{MmapOptions}
use mmap_rs.Unix.Kernel.{HasProtections, IsKernel}
use mmap_rs.Unix.Mapping
use mmap_rs.Unix.Mapping.{Mmap, drop}
use mmap_rs.Unix.Map.{do_map}
use mmap_rs.Unix.Map.Outcome.{do_map-eq-ok}
use mmap_rs.Unix.Map.Protection.{map_as-eq-ok}
use mmap_rs.Unix.Process.{Process, Step, maps, map_fails, changes, uses, drops, Reach, here, next}
use mmap_rs.Unix.Exclusive.Calls.{
  IsExclusive, map_as-Preserves, make_as-Preserves, run-IsExclusive, drop-IsExclusive,
}

-- A mapping that does not remember the flag `JIT`.
abbrev LacksJit : Platform → Mmap → Type 0
LacksJit p m = p.contains m.flags Mapping.Flags.jit ≡ false

-- Options without the flag `JIT`.
abbrev pub LacksJitFlag : (p : Platform) → MmapOptions → Type 0
LacksJitFlag p o = p.contains o.unsafe_flags UnsafeMmapFlags.jit ≡ false

pub record IsSound (p : Platform) (k : IsKernel p) (w : Process p) : Type 0 where
  pub exclusive : IsExclusive p k w.os
  pub lacking : All (LacksJit p) w.live

module _ (p : Platform) (h : HasProtections p) (k : IsKernel p) where
  do_map-LacksJit :
      (o : MmapOptions) (q : ℕ) (s : p.State) {m : Mmap} {t : p.State}
      → LacksJitFlag p o
      → do_map p o q s ≡ (ok m, t)
      → LacksJit p m
  do_map-LacksJit o q s {m} no_jit done =
      let (_, _, _, _, e) = do_map-eq-ok p o q s done in
      let plain : m.flags ≡ 0 = ground (arith, ap (λ n. n.flags) e) in
      rw plain (h.bits.contains-empty 0)

  Step-IsSound : {w v : Process p} → Step p (LacksJitFlag p) w v → IsSound p k w → IsSound p k v
  Step-IsSound {w} (maps a o m t no_jit done) i = record {
    exclusive =
        subst (λ r. IsExclusive p k r.1) done
          ((map_as-Preserves p k h a o no_jit).holds_after w.os i.exclusive);
    lacking = (do_map-LacksJit o _ w.os no_jit (map_as-eq-ok p a o w.os done), i.lacking);
  }
  Step-IsSound {w} (map_fails a o e t no_jit done) i = record {
    exclusive =
        subst (λ r. IsExclusive p k r.1) done
          ((map_as-Preserves p k h a o no_jit).holds_after w.os i.exclusive);
    lacking = i.lacking;
  }
  Step-IsSound {w} (changes a m before after own) i = record {
    exclusive =
        (make_as-Preserves p k h a m
            (All-middle _ before m after (rw own at i.lacking)).0).holds_after
          w.os i.exclusive;
    lacking = i.lacking;
  }
  Step-IsSound {w} (uses u m before after own) i = record {
    exclusive = run-IsExclusive p k u m w.os i.exclusive;
    lacking = i.lacking;
  }
  Step-IsSound {w} (drops m before after own) i = record {
    exclusive = drop-IsExclusive p k m w.os i.exclusive;
    lacking = (All-middle _ before m after (rw own at i.lacking)).1;
  }

  -- Where the system calls do to memory what their laws say, and each kind of access has a bit
  -- of its own: whatever a process does with mappings whose options lack the flag `JIT`, in any
  -- order and whichever calls fail, if no page was writable and executable at once and no
  -- mapping remembered the flag, then none becomes so and none does.
  pub Reach-IsSound :
      {w v : Process p} → Reach p (LacksJitFlag p) w v → IsSound p k w → IsSound p k v
  Reach-IsSound here i = i
  Reach-IsSound (next r step) i = Step-IsSound step (Reach-IsSound r i)
