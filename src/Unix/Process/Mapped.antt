-- ===== src/Unix/Process/Mapped.antt =====
-- Which bytes are mapped before and after the calls of src/os_impl/unix.rs, if no mapping asks for
-- a fixed address.
use mmap_rs.Common.{
  ℕ, ◌+◌, ◌≤◌, ◌<◌, ◌≡◌, ◌⊎◌, inl, inr, ap, sym, ◌∙◌, true, false, none, lt_or_le, is_some,
}
use mmap_rs.Error.{nix, ok}
use mmap_rs.Error.Inversion.{convert-eq-ok}
use mmap_rs.Error.Preserves.{Preserves, raise-Preserves, if-Preserves}
use mmap_rs.Flags.UnsafeMmapFlags
use mmap_rs.Unix.Platform.{Platform, map_fixed}
use mmap_rs.Unix.Libc.{HasFlags}
use mmap_rs.Unix.Options.{MmapOptions, flags}
use mmap_rs.Unix.Options.Requested.{contains-flags}
use mmap_rs.Unix.Kernel.{IsKernel}
use mmap_rs.Unix.Kernel.Pages.{span, HasPages}
use mmap_rs.Unix.Mapping
use mmap_rs.Unix.Mapping.{Mmap, do_make, drop}
use mmap_rs.Unix.Map
use mmap_rs.Unix.Map.{advise, do_map, mmap_call, nix_mmap}
use mmap_rs.Unix.Map.Outcome.{do_map-eq-ok}
use mmap_rs.Unix.Map.Protection.{
  Access, no_access, exec_mutable, prot_of, map_as, make_as, map_as-eq-ok, advise-prot_at,
}
use mmap_rs.Unix.Process.{Use, run}
use mmap_rs.Unix.Calls.{Looks, do_map-Preserves, do_make-Preserves, run-holds}

-- Options that lack the flag `MAP_FIXED`.
abbrev pub LacksFixed : (p : Platform) → MmapOptions → Type 0
LacksFixed p o = p.contains o.unsafe_flags UnsafeMmapFlags.map_fixed ≡ false

abbrev pub IsMapped : (p : Platform) → IsKernel p → ℕ → p.State → Type 0
IsMapped p k x s = is_some (k.prot_at s x) ≡ true

pub outside_range : {a b x : ℕ} → ((a ≤ x) × (x < b) → ⊥) → (x < a) ⊎ (b ≤ x)
outside_range {a} {b} {x} h = elim (lt_or_le x a) [
  | inl below ↦ inl below
  | inr above ↦ elim (lt_or_le x b) [
    | inl inside ↦ absurd (h (above, inside))
    | inr past ↦ inr past
  ]
]

module _ (p : Platform) (k : IsKernel p) (c : HasFlags p) (pages : HasPages p k) where
  pub unfixed :
      (o : MmapOptions) → LacksFixed p o → p.contains (flags p o) (p.map_flag map_fixed) ≡ false
  unfixed o free = contains-flags p c o map_fixed ∙ free

  pub IsMapped-Looks : (x : ℕ) → Looks p k (IsMapped p k x)
  IsMapped-Looks x = record { respects = λ s t same h. ap is_some (same x) ∙ h }

  IsMapped-Preserves :
      (x : ℕ) (o : MmapOptions) (prot : ℕ)
      → LacksFixed p o
      → Preserves (IsMapped p k x) (do_map p o prot)
  IsMapped-Preserves x o prot free = do_map-Preserves p k (IsMapped-Looks x) o prot (record {
    holds_after = λ s h. ap is_some (pages.mmap-keeps _ _ _ _ _ _ s x (unfixed o free) h) ∙ h;
  })

  do_make-IsMapped : (x : ℕ) (m : Mmap) (prot : ℕ) → Preserves (IsMapped p k x) (do_make p m prot)
  do_make-IsMapped x m prot = do_make-Preserves p k (IsMapped-Looks x) m prot (record {
    holds_after = λ s h. elim (k.mprotect-any m.ptr m.size prot s x) [
      | inl same ↦ ap is_some same ∙ h
      | inr new ↦ ap is_some new
    ];
  })

  pub map_as-Preserves :
      (x : ℕ) (a : Access) (o : MmapOptions)
      → LacksFixed p o
      → Preserves (IsMapped p k x) (map_as p a o)
  unfolding Map.map_none Map.map Map.map_exec Map.map_mut Map.map_exec_mut
  map_as-Preserves x exec_mutable o free =
      if-Preserves _ _ _ (IsMapped-Preserves x o _ free) (raise-Preserves _)
  map_as-Preserves x no_access o free = IsMapped-Preserves x o _ free
  map_as-Preserves x _ o free = IsMapped-Preserves x o _ free

  pub make_as-Preserves :
      (x : ℕ) (a : Access) (m : Mmap) → Preserves (IsMapped p k x) (make_as p a m)
  unfolding Mapping.make_none Mapping.make_read_only Mapping.make_exec Mapping.make_mut
      Mapping.make_exec_mut
  make_as-Preserves x exec_mutable m =
      if-Preserves _ _ _ (do_make-IsMapped x m _) (raise-Preserves _)
  make_as-Preserves x no_access m = do_make-IsMapped x m _
  make_as-Preserves x _ m = do_make-IsMapped x m _

  pub run-IsMapped :
      (x : ℕ) (u : Use) (m : Mmap) (s : p.State) → IsMapped p k x s → IsMapped p k x (run p u m s)
  run-IsMapped x u m s h = run-holds p k (IsMapped-Looks x) u m s h

  -- A byte of the pages of a mapping.
  abbrev pub Inside : ℕ → Mmap → Type 0
  Inside x m = (m.ptr ≤ x) × (x < m.ptr + span pages.page m.size)

  pub drop-IsMapped :
      (x : ℕ) (m : Mmap) (s : p.State)
      → (Inside x m → ⊥)
      → IsMapped p k x s
      → IsMapped p k x (drop p m s)
  unfolding drop
  drop-IsMapped x m s outside h =
      let apart : (x < m.ptr) ⊎ (m.ptr + span pages.page m.size ≤ x) = outside_range outside in
      ap is_some (pages.munmap-elsewhere m.ptr m.size x s apart) ∙ h

  -- The pages of a new mapping were free, and are mapped afterwards.
  pub map_as-fresh :
      (a : Access) (o : MmapOptions) (s : p.State) {m : Mmap} {t : p.State} (x : ℕ)
      → LacksFixed p o
      → map_as p a o s ≡ (ok m, t)
      → Inside x m
      → (k.prot_at s x ≡ none) × IsMapped p k x t
  unfolding mmap_call
  map_as-fresh a o s {m} {t} x free done (lo, hi) =
      let (q, s1, mapped, advised, e) =
        do_map-eq-ok p o (prot_of p a) s (map_as-eq-ok p a o s done) in
      let at_q : m.ptr ≡ q = ap (λ n. n.ptr) e in
      let sized : m.size ≡ o.size = ap (λ n. n.size) e in
      let (fresh, there) =
        pages.mmap-fresh _ _ _ _ _ _ x (unfixed o free)
          (convert-eq-ok nix (nix_mmap p o (prot_of p a)) s mapped) (rw (sym at_q) lo)
          (rw (sym at_q, sym sized) hi) in
      (
        fresh,
        ap (λ r. is_some (k.prot_at r.1 x)) (sym advised)
            ∙ ap is_some (advise-prot_at p k o q s1 x)
            ∙ there,
      )
