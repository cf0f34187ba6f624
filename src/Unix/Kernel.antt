-- ===== src/Unix/Kernel.antt =====
-- What the code relies on of the system calls: how they change the protection of memory.
pub mod Pages
use mmap_rs.Common.{ℕ, ℤ, ◌+◌, ◌^◌, ◌≤◌, ◌<◌, ◌≡◌, ◌≢◌, ◌⊎◌, Option, none, some}
use mmap_rs.Error.{ok}
use mmap_rs.Bitflags.{IsLawful}
use mmap_rs.Unix.Platform.{Platform}

-- No access is no bit, and each kind of access has a bit of its own.
pub record HasProtections (p : Platform) : Type 0 where
  pub bits : IsLawful p.bitflags
  pub read_bit : ℕ
  pub write_bit : ℕ
  pub exec_bit : ℕ
  pub prot_none-empty : p.prot_none ≡ 0
  pub prot_read-pow : p.prot_read ≡ 2 ^ read_bit
  pub prot_write-pow : p.prot_write ≡ 2 ^ write_bit
  pub prot_exec-pow : p.prot_exec ≡ 2 ^ exec_bit
  pub read-ne-write : read_bit ≢ write_bit
  pub read-ne-exec : read_bit ≢ exec_bit
  pub write-ne-exec : write_bit ≢ exec_bit

-- `prot_at s x` is the protection of the page of the address `x`, if it is mapped. A call that
-- changes protections gives each address the new one or leaves it, also where the call fails; one
-- that maps may drop what it replaces.
pub record IsKernel (p : Platform) : Type 0 where
  pub prot_at : p.State → ℕ → Option ℕ
  pub mmap-ok :
      (a n prot flags : ℕ) (fd offset : ℤ) {s s' : p.State} {q : ℕ} (x : ℕ)
      → p.mmap a n prot flags fd offset s ≡ (ok q, s')
      → q ≤ x
      → x < q + n
      → prot_at s' x ≡ some prot
  pub mmap-any :
      (a n prot flags : ℕ) (fd offset : ℤ) (s : p.State) (x : ℕ)
      → let s' = (p.mmap a n prot flags fd offset s).1 in
        (prot_at s' x ≡ prot_at s x) ⊎ ((prot_at s' x ≡ some prot) ⊎ (prot_at s' x ≡ none))
  pub munmap-ok :
      (a n : ℕ) {s s' : p.State} (x : ℕ)
      → p.munmap a n s ≡ (ok tt, s')
      → a ≤ x
      → x < a + n
      → prot_at s' x ≡ none
  pub munmap-any :
      (a n x : ℕ) (s : p.State)
      → let s' = (p.munmap a n s).1 in (prot_at s' x ≡ prot_at s x) ⊎ (prot_at s' x ≡ none)
  pub mprotect-ok :
      (a n prot : ℕ) {s s' : p.State} (x : ℕ)
      → p.mprotect a n prot s ≡ (ok tt, s')
      → a ≤ x
      → x < a + n
      → prot_at s' x ≡ some prot
  pub mprotect-any :
      (a n prot : ℕ) (s : p.State) (x : ℕ)
      → let s' = (p.mprotect a n prot s).1 in
        (prot_at s' x ≡ prot_at s x) ⊎ (prot_at s' x ≡ some prot)
  -- the other calls keep every protection
  pub msync-any : (a n f x : ℕ) (s : p.State) → prot_at (p.msync a n f s).1 x ≡ prot_at s x
  pub madvise-any : (a n f x : ℕ) (s : p.State) → prot_at (p.madvise a n f s).1 x ≡ prot_at s x
  pub mlock-any : (a n x : ℕ) (s : p.State) → prot_at (p.mlock a n s).1 x ≡ prot_at s x
  pub munlock-any : (a n x : ℕ) (s : p.State) → prot_at (p.munlock a n s).1 x ≡ prot_at s x
  pub sys_icache_invalidate-any :
      (a n x : ℕ) (s : p.State) → prot_at (p.sys_icache_invalidate a n s) x ≡ prot_at s x
  pub clear_cache-any : (a e x : ℕ) (s : p.State) → prot_at (p.clear_cache a e s) x ≡ prot_at s x
