-- ===== src/Windows/Kernel.antt =====
-- What the code relies on of the functions of Windows: how they change the protection of memory, and
-- the number of open handles.
use mmap_rs.Common.{ℕ, suc, ◌+◌, ◌-◌, ◌^◌, ◌≤◌, ◌<◌, ◌≡◌, ◌≢◌, true, false, Option, some}
use mmap_rs.Error.{ok, err}
use mmap_rs.Bitflags.{IsLawful}
use mmap_rs.Windows.Platform.{Platform}

-- `protect_at s x` is the protection of the page of the address `x`, if it is committed.
pub record IsKernel (p : Platform) : Type 0 where
  pub protect_at : p.State → ℕ → Option ℕ
  pub virtual_protect-true :
      (a n protect : ℕ) {s t : p.State} (x : ℕ)
      → p.virtual_protect a n protect s ≡ (true, t)
      → a ≤ x
      → x < a + n
      → protect_at t x ≡ some protect
  -- pages that are only reserved have no protection: it takes `MEM_COMMIT`
  pub bits : IsLawful p.bitflags
  pub commit_bit : ℕ
  pub mem_commit-pow : p.mem_commit ≡ 2 ^ commit_bit
  pub virtual_alloc-some :
      (a n type protect : ℕ) {s t : p.State} {q : ℕ} (x : ℕ)
      → p.contains type p.mem_commit ≡ true
      → p.virtual_alloc a n type protect s ≡ (q, t)
      → q ≢ 0
      → q ≤ x
      → x < q + n
      → protect_at t x ≡ some protect
  -- `MEM_RELEASE` wants the size 0: with any other the call fails, and changes no page
  pub release_bit : ℕ
  pub mem_release-pow : p.mem_release ≡ 2 ^ release_bit
  pub virtual_free-sized :
      (a n type : ℕ) (s : p.State)
      → n ≢ 0
      → p.contains type p.mem_release ≡ true
      → (x : ℕ) → protect_at (p.virtual_free a n type s).1 x ≡ protect_at s x

-- `handles s` is the number of handles that the process has open.
pub record HasHandles (p : Platform) : Type 0 where
  pub handles : p.State → ℕ
  pub create-ok :
      (file protect high low : ℕ) {s t : p.State} {h : ℕ}
      → p.create_file_mapping file protect high low s ≡ (ok h, t)
      → p.is_invalid h ≡ false
      → handles t ≡ suc (handles s)
  pub create-invalid :
      (file protect high low : ℕ) {s t : p.State} {h : ℕ}
      → p.create_file_mapping file protect high low s ≡ (ok h, t)
      → p.is_invalid h ≡ true
      → handles t ≡ handles s
  pub create-err :
      (file protect high low : ℕ) {s t : p.State} {e : ℕ}
      → p.create_file_mapping file protect high low s ≡ (err e, t)
      → handles t ≡ handles s
  pub close-valid :
      (h : ℕ) (s : p.State)
      → p.is_invalid h ≡ false
      → handles (p.close_handle h s).1 ≡ handles s - 1
  pub close-invalid :
      (h : ℕ) (s : p.State) → p.is_invalid h ≡ true → handles (p.close_handle h s).1 ≡ handles s
  -- the other functions open and close none
  pub map_view_of_file-any :
      (h access high low n : ℕ) (s : p.State)
      → handles (p.map_view_of_file h access high low n s).1 ≡ handles s
  pub virtual_protect-any :
      (a n protect : ℕ) (s : p.State) → handles (p.virtual_protect a n protect s).1 ≡ handles s
  pub virtual_alloc-any :
      (a n type protect : ℕ) (s : p.State)
      → handles (p.virtual_alloc a n type protect s).1 ≡ handles s
