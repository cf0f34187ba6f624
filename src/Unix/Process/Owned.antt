-- ===== src/Unix/Process/Owned.antt =====
-- The memory that a process owns, over the steps of a process that uses src/os_impl/unix.rs.
use mmap_rs.Common.{
  ℕ, ◌≡◌, none, subst, ◌++◌, All, All-middle, All-map, All-zip, Pairwise, Pairwise-middle,
}
use mmap_rs.Unix.Platform.{Platform}
use mmap_rs.Unix.Options.{MmapOptions}
use mmap_rs.Unix.Libc.{HasFlags}
use mmap_rs.Unix.Kernel.{IsKernel}
use mmap_rs.Unix.Kernel.Pages.{HasPages}
use mmap_rs.Unix.Mapping.{Mmap, drop}
use mmap_rs.Unix.Map.Protection.{Access, map_as}
use mmap_rs.Unix.Process.{Process, Step, maps, map_fails, changes, uses, drops, Reach, here, next}
use mmap_rs.Unix.Process.Mapped.{
  LacksFixed, IsMapped, Inside, map_as-Preserves, make_as-Preserves, run-IsMapped, drop-IsMapped,
  map_as-fresh,
}

module _ (p : Platform) (k : IsKernel p) (c : HasFlags p) (pages : HasPages p k) where
  -- No byte is in the pages of both.
  abbrev pub Apart : Mmap → Mmap → Type 0
  Apart m n = (x : ℕ) → Inside p k c pages x m → Inside p k c pages x n → ⊥

  -- Every byte of the pages of a mapping is mapped.
  abbrev pub Covered : p.State → Mmap → Type 0
  Covered s m = (x : ℕ) → Inside p k c pages x m → IsMapped p k x s

  -- The mappings of a process are mapped, and no two have a page in common.
  pub record IsOwned (w : Process p) : Type 0 where
    pub covered : All (Covered w.os) w.live
    pub apart : Pairwise Apart w.live

  map_as-Covered :
      (a : Access) (o : MmapOptions) (s : p.State) (n : Mmap)
      → LacksFixed p o
      → Covered s n
      → Covered (map_as p a o s).1 n
  map_as-Covered a o s n free h x inside =
      (map_as-Preserves p k c pages x a o free).holds_after s (h x inside)

  -- What was free is in no mapping.
  pub fresh-Apart :
      (m n : Mmap) (s : p.State)
      → ((x : ℕ) → Inside p k c pages x m → k.prot_at s x ≡ none)
      → Covered s n
      → Apart m n
  fresh-Apart m n s fresh h x in_m in_n = let free = fresh x in_m in let there = h x in_n in cc

  pub flip-Apart : (m n : Mmap) → Apart m n → Apart n m
  flip-Apart m n h x in_n in_m = h x in_m in_n

  drop-Covered : (m n : Mmap) (s : p.State) → Covered s n → Apart m n → Covered (drop p m s) n
  drop-Covered m n s h apart x inside =
      drop-IsMapped p k c pages x m s (λ in_m. apart x in_m inside) (h x inside)

  Step-IsOwned : {w v : Process p} → Step p (LacksFixed p) w v → IsOwned w → IsOwned v
  Step-IsOwned {w} (maps a o m t free done) i = record {
    covered = (
      λ x inside. (map_as-fresh p k c pages a o w.os x free done inside).1,
      subst (λ r. All (Covered r.1) w.live) done
          (All-map (λ n h. map_as-Covered a o w.os n free h) w.live i.covered),
    );
    apart = (
      All-map
          (λ n h.
            fresh-Apart m n w.os
              (λ x inside. (map_as-fresh p k c pages a o w.os x free done inside).0) h)
          w.live i.covered,
      i.apart,
    );
  }
  Step-IsOwned {w} (map_fails a o e t free done) i = record {
    covered =
        subst (λ r. All (Covered r.1) w.live) done
          (All-map (λ n h. map_as-Covered a o w.os n free h) w.live i.covered);
    apart = i.apart;
  }
  Step-IsOwned {w} (changes a m before after own) i = record {
    covered =
        All-map
          (λ n h x inside. (make_as-Preserves p k c pages x a m).holds_after w.os (h x inside))
          w.live i.covered;
    apart = i.apart;
  }
  Step-IsOwned {w} (uses u m before after own) i = record {
    covered =
        All-map (λ n h x inside. run-IsMapped p k c pages x u m w.os (h x inside)) w.live i.covered;
    apart = i.apart;
  }
  Step-IsOwned {w} (drops m before after own) i =
      let (others, apart) = Pairwise-middle Apart flip-Apart before m after (rw own at i.apart) in
      let (_, covered) = All-middle (Covered w.os) before m after (rw own at i.covered) in
      record {
        covered = All-zip (λ n. drop-Covered m n w.os) (before ++ after) covered others;
        apart = apart;
      }

  -- Where the system calls do to memory and to its pages what their laws say, and each flag of
  -- `mmap` is a bit of its own: whatever a process does with mappings whose options lack the
  -- flag `MAP_FIXED`, in any order and whichever calls fail, if every byte of the pages of its
  -- mappings was mapped and no two of them had a byte in common, then it stays so.
  pub Reach-IsOwned : {w v : Process p} → Reach p (LacksFixed p) w v → IsOwned w → IsOwned v
  Reach-IsOwned here i = i
  Reach-IsOwned (next r step) i = Step-IsOwned step (Reach-IsOwned r i)
