-- ===== src/Unix/Kernel/Pages.antt =====
-- What the code relies on of the system calls about whole pages: which addresses a call leaves alone.
use mmap_rs.Common.{ℕ, ℤ, ◌+◌, ◌-◌, ◌%◌, ◌≤◌, ◌<◌, ◌≡◌, ◌⊎◌, true, false, none, is_some}
use mmap_rs.Error.{ok}
use mmap_rs.Unix.Platform.{Platform, map_fixed}
use mmap_rs.Unix.Kernel.{IsKernel}

-- The bytes of the pages that a length of `n` bytes takes: it is rounded up to whole pages.
abbrev pub span : ℕ → ℕ → ℕ
span page n = n + (page - n % page) % page

-- Without `MAP_FIXED`, `mmap` chooses pages that were free, and fails rather than change a page that
-- was mapped; neither `munmap` nor `mprotect` changes a page outside its range.
pub record HasPages (p : Platform) (k : IsKernel p) : Type 0 where
  pub page : ℕ
  pub mmap-keeps :
      (a n prot flags : ℕ) (fd offset : ℤ) (s : p.State) (x : ℕ)
      → p.contains flags (p.map_flag map_fixed) ≡ false
      → is_some (k.prot_at s x) ≡ true
      → k.prot_at (p.mmap a n prot flags fd offset s).1 x ≡ k.prot_at s x
  pub mmap-fresh :
      (a n prot flags : ℕ) (fd offset : ℤ) {s s' : p.State} {q : ℕ} (x : ℕ)
      → p.contains flags (p.map_flag map_fixed) ≡ false
      → p.mmap a n prot flags fd offset s ≡ (ok q, s')
      → q ≤ x
      → x < q + span page n
      → (k.prot_at s x ≡ none) × (is_some (k.prot_at s' x) ≡ true)
  pub munmap-elsewhere :
      (a n x : ℕ) (s : p.State)
      → (x < a) ⊎ (a + span page n ≤ x)
      → k.prot_at (p.munmap a n s).1 x ≡ k.prot_at s x
  pub mprotect-elsewhere :
      (a n prot x : ℕ) (s : p.State)
      → (x < a) ⊎ (a + span page n ≤ x)
      → k.prot_at (p.mprotect a n prot s).1 x ≡ k.prot_at s x
