-- ===== src/Programs/MapAnon/Cleans.antt =====
-- What examples/map_anon.rs leaves behind on src/os_impl/unix.rs.
use mmap_rs.Common.{ℕ, ◌≡◌, refl, subst, [], ◌∷◌, leb, Bool-cases, inl, inr}
use mmap_rs.Error.{Error, Result, ok, err, continue}
use mmap_rs.Mmap
use mmap_rs.Mmap.{retype}
use mmap_rs.Mmap.MutSlices.{as_mut_slice}
use mmap_rs.Mmap.Options
use mmap_rs.Unix.Platform.{Platform}
use mmap_rs.Unix.Libc.{HasFlags}
use mmap_rs.Unix.Kernel.{IsKernel}
use mmap_rs.Unix.Kernel.Pages.{HasPages}
use mmap_rs.Unix.Options.{MmapOptions}
use mmap_rs.Unix.Mapping
use mmap_rs.Unix.Mapping.{Mmap, drop}
use mmap_rs.Unix.Map
use mmap_rs.Unix.Map.Protection.{mutable, read_only}
use mmap_rs.Unix.Backend.{unix}
use mmap_rs.Unix.Process.{Process, Reach, maps, map_fails, changes, drops, here, next}
use mmap_rs.Unix.Process.Mapped.{
  LacksFixed, IsMapped, map_as-Preserves, make_as-Preserves, map_as-fresh, drop-IsMapped,
}
use mmap_rs.Unix.Process.Drained.{Unmapped, drop-Unmapped}
use mmap_rs.Programs.MapAnon.{finish, with_mapping, one_page, main}

-- A process with no mapping.
abbrev pub idle : (p : Platform) → p.State → Process p
idle p s = record { os = s; live = [] }

-- From the state `s` to the state `t`, where `map_mut` returned `r` on the way.
pub record Cleans (p : Platform) (k : IsKernel p) (s : p.State) (r : Result Error Mmap × p.State)
    (t : p.State) : Type 0 where
  pub runs : Reach p (LacksFixed p) (idle p s) (idle p t)
  pub keeps : (x : ℕ) → IsMapped p k x s → IsMapped p k x t
  pub frees :
      (m : Mmap)
      → r.0 ≡ ok m
      → ((u : p.State) → (p.munmap m.ptr m.size u).0 ≡ ok tt)
      → Unmapped p k t m

module _ (p : Platform) (k : IsKernel p) (c : HasFlags p) (pages : HasPages p k) where
  -- The options of the program, as src/os_impl/unix.rs has them.
  abbrev pub options : p.State → MmapOptions
  options s = (one_page (unix p) s).inner

  options-LacksFixed : (s : p.State) → LacksFixed p (options s)
  unfolding one_page Options.new Options.with_flags Options.page_size mmap_rs.Unix.Options.new
      mmap_rs.Unix.Options.with_flags
  options-LacksFixed s = c.bits.contains-empty 0

  module _ (o : MmapOptions) (free : LacksFixed p o) (s : p.State) where
    refused : (e : Error) (t : p.State) → Map.map_mut p o s ≡ (err e, t) → Cleans p k s (err e, t) t
    refused e t done = record {
      runs = next here (map_fails mutable o e t free done);
      keeps = λ x h.
          subst (λ r. IsMapped p k x r.1) done
            ((map_as-Preserves p k c pages x mutable o free).holds_after s h);
      frees = λ m is freed. cc;
    }

    dropped :
        (m : Mmap) (t u : p.State)
        → Map.map_mut p o s ≡ (ok m, t)
        → Reach p (LacksFixed p) (idle p s) (record { os = u; live = m ∷ [] })
        → ((x : ℕ) → IsMapped p k x t → IsMapped p k x u)
        → Cleans p k s (ok m, t) (drop p m u)
    dropped m t u done reach stays = record {
      runs = next reach (drops m [] [] refl);
      keeps = λ x h.
          drop-IsMapped p k c pages x m u
            (λ inside.
              let fresh = (map_as-fresh p k c pages mutable o s x free done inside).0 in cc)
            (stays x (
              subst (λ r. IsMapped p k x r.1) done
                ((map_as-Preserves p k c pages x mutable o free).holds_after s h)));
      frees = λ n is freed.
          let same : m ≡ n = cc in
          subst
            (λ a.
              ((v : p.State) → (p.munmap a.ptr a.size v).0 ≡ ok tt) → Unmapped p k (drop p m u) a)
            same (λ at_m. drop-Unmapped p k m u (at_m u)) freed;
    }

    finish-state :
        (m : Mmap) (r : Result Error Unit × p.State)
        → (finish
            (unix p)
            (retype (unix p) (λ n. n.inner) (record { inner = m }) (record { inner = m }) r)).1
          ≡ drop p m r.1
    finish-state m (ok _, t) = refl
    finish-state m (err e, t) = refl

    ended :
        (r : Result Error Mmap × p.State)
        → Map.map_mut p o s ≡ r
        → Cleans p k s r
            (with_mapping (unix p) (continue (λ m t. (ok (record { inner = m }), t)) r)).1
    unfolding as_mut_slice mmap_rs.Mmap.make_read_only mmap_rs.Mmap.size
    ended (err e, t) done = refused e t done
    ended (ok m, t) done = elim (Bool-cases (leb 4 m.size)) [
      | inl long ↦
          rw (long, finish-state m (Mapping.make_read_only p m t))
            (dropped m t (Mapping.make_read_only p m t).1 done
              (next (next here (maps mutable o m t free done)) (changes read_only m [] [] refl))
              (λ x h. (make_as-Preserves p k c pages x read_only m).holds_after t h))
      | inr short ↦
          rw short (dropped m t t done (next here (maps mutable o m t free done)) (λ x h. h))
    ]

  -- Where the system calls do to memory and to its pages what their laws say, and each flag of
  -- `mmap` is a bit of its own: whatever fails or panics, a run of examples/map_anon.rs is one
  -- of a process that ends with no mapping; what was mapped before stays mapped; and if
  -- `munmap` succeeds on the mapping that was made, then none of its bytes is mapped in the
  -- end.
  pub main-Cleans : (s : p.State) → Cleans p k s (Map.map_mut p (options s) s) (main (unix p) s).1
  unfolding main Options.map_mut
  main-Cleans s = ended (options s) (options-LacksFixed s) s (Map.map_mut p (options s) s) refl
