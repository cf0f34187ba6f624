-- ===== src/Unix/Process/Drained.antt =====
-- The end of a process that uses src/os_impl/unix.rs: it drops its mappings, one after the other.
use mmap_rs.Common.{ℕ, ◌+◌, ◌≤◌, ◌<◌, ◌≡◌, refl, ◌⊎◌, inl, inr, ap, ◌∙◌, none, List, [], ◌∷◌, All}
use mmap_rs.Error.{ok}
use mmap_rs.Unix.Platform.{Platform}
use mmap_rs.Unix.Options.{MmapOptions}
use mmap_rs.Unix.Kernel.{IsKernel}
use mmap_rs.Unix.Kernel.Pages.{span, HasPages}
use mmap_rs.Unix.Mapping.{Mmap, drop}
use mmap_rs.Unix.Process.{Process, drops, Reach, here, next}

module _ (p : Platform) where
  unfoldable pub drop_all : List Mmap → p.State → p.State
  drop_all [] s = s
  drop_all (m ∷ ms) s = drop_all ms (drop p m s)

  -- Each call of `munmap` on the way succeeds.
  abbrev pub AllFreed : List Mmap → p.State → Type 0
  AllFreed [] s = Unit
  AllFreed (m ∷ ms) s = ((p.munmap m.ptr m.size s).0 ≡ ok tt) × AllFreed ms (drop p m s)

  abbrev pub drained : Process p → Process p
  drained w = record { os = drop_all w.live w.os; live = [] }

module _ (p : Platform) (allowed : MmapOptions → Type 0) where
  drop_all-Reach :
      (ms : List Mmap) (s : p.State) {w : Process p}
      → Reach p allowed w (record { os = s; live = ms })
      → Reach p allowed w (record { os = drop_all p ms s; live = [] })
  unfolding drop_all
  drop_all-Reach [] s r = r
  drop_all-Reach (m ∷ ms) s r = drop_all-Reach ms (drop p m s) (next r (drops m [] ms refl))

module _ (p : Platform) (k : IsKernel p) where
  -- No byte of the mapping is mapped.
  abbrev pub Unmapped : p.State → Mmap → Type 0
  Unmapped s m = (x : ℕ) → m.ptr ≤ x → x < m.ptr + m.size → k.prot_at s x ≡ none

  drop-none :
      (m : Mmap) (s : p.State) (x : ℕ) → k.prot_at s x ≡ none → k.prot_at (drop p m s) x ≡ none
  unfolding drop
  drop-none m s x h = elim (k.munmap-any m.ptr m.size x s) [ inl same ↦ same ∙ h | inr gone ↦ gone ]

  drop_all-none :
      (ms : List Mmap) (s : p.State) (x : ℕ)
      → k.prot_at s x ≡ none
      → k.prot_at (drop_all p ms s) x ≡ none
  unfolding drop_all
  drop_all-none [] s x h = h
  drop_all-none (m ∷ ms) s x h = drop_all-none ms (drop p m s) x (drop-none m s x h)

  pub drop-Unmapped :
      (m : Mmap) (s : p.State) → (p.munmap m.ptr m.size s).0 ≡ ok tt → Unmapped (drop p m s) m
  unfolding drop
  drop-Unmapped m s freed x lo hi =
      k.munmap-ok m.ptr m.size x (ap (λ r. (r, (p.munmap m.ptr m.size s).1)) freed) lo hi

  drop_all-Unmapped :
      (ms : List Mmap) (s : p.State) → AllFreed p ms s → All (Unmapped (drop_all p ms s)) ms
  unfolding drop_all
  drop_all-Unmapped [] s _ = tt
  drop_all-Unmapped (m ∷ ms) s (freed, rest) = (
    λ x lo hi. drop_all-none ms (drop p m s) x (drop-Unmapped m s freed x lo hi),
    drop_all-Unmapped ms (drop p m s) rest,
  )

module _ (p : Platform) (k : IsKernel p) (pages : HasPages p k) where
  -- A byte that is in the pages of none of the mappings.
  abbrev pub Elsewhere : List Mmap → ℕ → Type 0
  Elsewhere ms x = All (λ m. (x < m.ptr) ⊎ (m.ptr + span pages.page m.size ≤ x)) ms

  drop_all-Elsewhere :
      (ms : List Mmap) (s : p.State) (x : ℕ)
      → Elsewhere ms x
      → k.prot_at (drop_all p ms s) x ≡ k.prot_at s x
  unfolding drop_all drop
  drop_all-Elsewhere [] s x _ = refl
  drop_all-Elsewhere (m ∷ ms) s x (outside, rest) =
      drop_all-Elsewhere ms (drop p m s) x rest ∙ pages.munmap-elsewhere m.ptr m.size x s outside

  -- Where the system calls do to memory and to its pages what their laws say: a process for
  -- which `munmap` succeeds reaches, by dropping its mappings one after the other, an end in
  -- which it has none and no byte of them is mapped, and every byte outside their pages has the
  -- protection that it had.
  pub drained-Unmapped :
      (allowed : MmapOptions → Type 0) (w : Process p)
      → AllFreed p w.live w.os
      → Reach p allowed w (drained p w)
        × All (Unmapped p k (drained p w).os) w.live
        × ((x : ℕ) → Elsewhere w.live x → k.prot_at (drained p w).os x ≡ k.prot_at w.os x)
  drained-Unmapped allowed w freed = (
    drop_all-Reach p allowed w.live w.os here,
    drop_all-Unmapped p k w.live w.os freed,
    drop_all-Elsewhere w.live w.os,
  )
