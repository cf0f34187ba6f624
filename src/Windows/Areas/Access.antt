-- ===== src/Windows/Areas/Access.antt =====
-- The access that the iterator of src/os_impl/windows.rs reports for each protection of a page.
use mmap_rs.Common.{ℕ, ◌^◌, ◌≡◌, ◌∙◌, Bool, true, false, ◌||◌, ◌&&◌, ◌==◌, if◌then◌else◌, arith}
use mmap_rs.Bitflags.{IsLawful}
use mmap_rs.Areas.Protection
use mmap_rs.Windows.Areas.{Process, protection_of}

pub data Page : Type 0 where
  no_access readonly readwrite writecopy execute execute_read execute_readwrite execute_writecopy :
      Page

-- The place of the bit that is the constant.
abbrev pub index : Page → ℕ
index no_access = 0
index readonly = 1
index readwrite = 2
index writecopy = 3
index execute = 4
index execute_read = 5
index execute_readwrite = 6
index execute_writecopy = 7

abbrev pub page_of : Process → Page → ℕ
page_of p no_access = p.page_noaccess
page_of p readonly = p.page_readonly
page_of p readwrite = p.page_readwrite
page_of p writecopy = p.page_writecopy
page_of p execute = p.page_execute
page_of p execute_read = p.page_execute_read
page_of p execute_readwrite = p.page_execute_readwrite
page_of p execute_writecopy = p.page_execute_writecopy

-- No two of the constants are equal.
pub record HasPages (p : Process) : Type 0 where
  pub page_of-index : (k l : Page) → (page_of p k == page_of p l) ≡ (index k == index l)
  pub bits : IsLawful p.bitflags

-- What the documentation of each constant allows: reading, writing, executing.
abbrev pub readable : Page → Bool
readable no_access = false
readable execute = false
readable _ = true

abbrev pub writable : Page → Bool
writable readwrite = true
writable writecopy = true
writable execute_readwrite = true
writable execute_writecopy = true
writable _ = false

abbrev pub executable : Page → Bool
executable execute = true
executable execute_read = true
executable execute_readwrite = true
executable execute_writecopy = true
executable _ = false

module _ (p : Process) (h : HasPages p) where
  -- The chain of tests, by the place of the constant.
  chosen : ℕ → ℕ
  chosen i =
      let all = p.union (p.union Protection.read Protection.write) Protection.execute in
      let both = p.union Protection.read Protection.write in
      if i == 4
      then Protection.execute
      else if i == 5
      then p.union Protection.read Protection.execute
      else if i == 6 || i == 7
      then all
      else if i == 1
      then Protection.read
      else if i == 2 || i == 3
      then both
      else 0

  protection_of-chosen : (k : Page) → protection_of p (page_of p k) ≡ chosen (index k)
  unfolding protection_of chosen
  protection_of-chosen k = rw (
    h.page_of-index k execute,
    h.page_of-index k execute_read,
    h.page_of-index k execute_readwrite,
    h.page_of-index k execute_writecopy,
    h.page_of-index k readonly,
    h.page_of-index k readwrite,
    h.page_of-index k writecopy,
  )

  -- Whether a page allows the access of one bit of `Protection`.
  abbrev allows : Page → ℕ → Bool
  allows k i = readable k && i == 0 || writable k && i == 1 || executable k && i == 3

  chosen-allows : (k : Page) (i : ℕ) → p.contains (chosen (index k)) (2 ^ i) ≡ allows k i
  unfolding chosen
  chosen-allows no_access i = h.bits.contains-empty i
  chosen-allows _ i = simp (h.bits.contains-union, h.bits.contains-bit) (ground arith)

  protection_of-allows :
      (k : Page) (i : ℕ) → p.contains (protection_of p (page_of p k)) (2 ^ i) ≡ allows k i
  protection_of-allows k i = rw (protection_of-chosen k) (chosen-allows k i)

  -- Where no two of the constants for the protection of a page are equal and the operations on
  -- flags are lawful: for each of the eight constants, an area has the access to read, to write
  -- and to execute exactly when the constant allows it.
  pub protection_of-access :
      (k : Page)
      → (p.contains (protection_of p (page_of p k)) Protection.read ≡ readable k)
        × (p.contains (protection_of p (page_of p k)) Protection.write ≡ writable k)
        × (p.contains (protection_of p (page_of p k)) Protection.execute ≡ executable k)
  protection_of-access k = (
    protection_of-allows k 0 ∙ ground arith,
    protection_of-allows k 1 ∙ ground arith,
    protection_of-allows k 3 ∙ ground arith,
  )
