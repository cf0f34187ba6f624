-- ===== src/Unix/Exclusive/Calls.antt =====
-- What the calls of src/os_impl/unix.rs do to pages that are writable and executable at once.
use mmap_rs.Common.{ℕ, ◌≡◌, ◌⊎◌, inl, inr, sym, ap, ◌∙◌, false, none, some, some-injective}
use mmap_rs.Error.{Exec}
use mmap_rs.Error.Preserves.{Preserves, raise-Preserves}
use mmap_rs.Flags.UnsafeMmapFlags
use mmap_rs.Unix.Platform.{Platform}
use mmap_rs.Unix.Options.{MmapOptions}
use mmap_rs.Unix.Kernel.{HasProtections, IsKernel}
use mmap_rs.Unix.Mapping
use mmap_rs.Unix.Mapping.{
  Mmap, do_make, lock, unlock, flush, flush_async, flush_icache, drop, offset,
}
use mmap_rs.Unix.Map
use mmap_rs.Unix.Map.{advise, do_map, mmap_call, nix_mmap}
use mmap_rs.Unix.Map.Protection.{
  Access, no_access, read_only, exec, mutable, exec_mutable, map_as, make_as,
}
use mmap_rs.Unix.Process.{Use, run}
use mmap_rs.Unix.Calls.{Looks, do_map-Preserves, do_make-Preserves, run-holds}
use mmap_rs.Unix.Exclusive.{both, both-prot_of}

abbrev pub IsExclusive : (p : Platform) → IsKernel p → p.State → Type 0
IsExclusive p k s = (x q : ℕ) → k.prot_at s x ≡ some q → both p q ≡ false

-- What a call may do to the protection of an address: leave it, give it `q`, or take it away.
abbrev Updates : (p : Platform) → IsKernel p → p.State → p.State → ℕ → Type 0
Updates p k s t q =
    (x : ℕ) → (k.prot_at t x ≡ k.prot_at s x) ⊎ ((k.prot_at t x ≡ some q) ⊎ (k.prot_at t x ≡ none))

module _ (p : Platform) (k : IsKernel p) where
  Updates-IsExclusive :
      (s t : p.State) (q : ℕ)
      → both p q ≡ false
      → Updates p k s t q
      → IsExclusive p k s
      → IsExclusive p k t
  Updates-IsExclusive s t q fine upd excl x r at = elim (upd x) [
    | inl same ↦ excl x r (sym same ∙ at)
    | inr (inl new) ↦ ap (both p) (some-injective r q (sym at ∙ new)) ∙ fine
    | inr (inr gone) ↦ cc
  ]

  Updates-Preserves :
      {E A : Type 0} (m : Exec p.State E A) (q : ℕ)
      → both p q ≡ false
      → ((s : p.State) → Updates p k s (m s).1 q)
      → Preserves (IsExclusive p k) m
  Updates-Preserves m q fine upd = record {
    holds_after = λ s. Updates-IsExclusive s (m s).1 q fine (upd s);
  }

  IsExclusive-Looks : Looks p k (IsExclusive p k)
  IsExclusive-Looks = record { respects = λ s t same excl x r at. excl x r (sym (same x) ∙ at) }

  mapped-Preserves :
      (o : MmapOptions) (q : ℕ) → both p q ≡ false → Preserves (IsExclusive p k) (do_map p o q)
  mapped-Preserves o q fine =
      do_map-Preserves p k IsExclusive-Looks o q
        (Updates-Preserves (nix_mmap p o q) q fine (λ s x. k.mmap-any _ _ _ _ _ _ s x))

  made-Preserves :
      (m : Mmap) (q : ℕ) → both p q ≡ false → Preserves (IsExclusive p k) (do_make p m q)
  made-Preserves m q fine = do_make-Preserves p k IsExclusive-Looks m q (
      Updates-Preserves _ q fine λ s x. elim (k.mprotect-any m.ptr m.size q s x) [
        | inl same ↦ inl same
        | inr new ↦ inr (inl new)
      ])

  -- Without the flag `JIT` none of the five functions that map, and none of the five that change
  -- a mapping, makes a page writable and executable, whether the call succeeds or fails.
  pub map_as-Preserves :
      HasProtections p
      → (a : Access) (o : MmapOptions) → p.contains o.unsafe_flags UnsafeMmapFlags.jit ≡ false
      → Preserves (IsExclusive p k) (map_as p a o)
  unfolding Map.map_none Map.map Map.map_exec Map.map_mut Map.map_exec_mut
  map_as-Preserves h no_access o no_jit = mapped-Preserves o _ (both-prot_of p h no_access cc)
  map_as-Preserves h read_only o no_jit = mapped-Preserves o _ (both-prot_of p h read_only cc)
  map_as-Preserves h exec o no_jit = mapped-Preserves o _ (both-prot_of p h exec cc)
  map_as-Preserves h mutable o no_jit = mapped-Preserves o _ (both-prot_of p h mutable cc)
  map_as-Preserves h exec_mutable o no_jit = rw no_jit (raise-Preserves _)

  pub make_as-Preserves :
      HasProtections p
      → (a : Access) (m : Mmap) → p.contains m.flags Mapping.Flags.jit ≡ false
      → Preserves (IsExclusive p k) (make_as p a m)
  unfolding Mapping.make_none Mapping.make_read_only Mapping.make_exec Mapping.make_mut
      Mapping.make_exec_mut
  make_as-Preserves h no_access m no_jit = made-Preserves m _ (both-prot_of p h no_access cc)
  make_as-Preserves h read_only m no_jit = made-Preserves m _ (both-prot_of p h read_only cc)
  make_as-Preserves h exec m no_jit = made-Preserves m _ (both-prot_of p h exec cc)
  make_as-Preserves h mutable m no_jit = made-Preserves m _ (both-prot_of p h mutable cc)
  make_as-Preserves h exec_mutable m no_jit = rw no_jit (raise-Preserves _)

  pub run-IsExclusive :
      (u : Use) (m : Mmap) (s : p.State) → IsExclusive p k s → IsExclusive p k (run p u m s)
  run-IsExclusive u m s excl = run-holds p k IsExclusive-Looks u m s excl

  pub drop-IsExclusive : (m : Mmap) (s : p.State) → IsExclusive p k s → IsExclusive p k (drop p m s)
  unfolding drop
  drop-IsExclusive m s excl x q at = elim (k.munmap-any m.ptr m.size x s) [
    | inl same ↦ excl x q (sym same ∙ at)
    | inr gone ↦ cc
  ]
