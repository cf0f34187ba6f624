-- ===== src/Unix/Options/HugePages.antt =====
-- The size of huge pages that `MmapOptions::flags` of src/os_impl/unix.rs requests of `mmap`.
use mmap_rs.Common.{
  ℕ, ◌^◌, ◌≡◌, ◌≢◌, refl, ◌∙◌, sym, ap, Bool, true, false, ◌&&◌, ◌||◌, Option, none, some, arith,
  ◌==◌, if◌then◌else◌,
}
use mmap_rs.Flags.PageSize.{PageSize}
use mmap_rs.Unix.Platform.{linux_like, MapFlag, map_hugetlb, Platform}
use mmap_rs.Unix.Libc.{HasFlags}
use mmap_rs.Unix.Options.{MmapOptions, huge_page_flag, add_if, add_page_size, flags}
use mmap_rs.Unix.Options.Requested.{contains-flags}

-- The sizes, as exponents of two, that have a constant of their own.
abbrev pub is_huge : ℕ → Bool
is_huge n =
    n == 16
    || n == 19
    || n == 20
    || n == 21
    || n == 23
    || n == 24
    || n == 25
    || n == 28
    || n == 29
    || n == 30
    || n == 31
    || n == 34

-- The bit `i` of the constant of a page size.
abbrev pub huge_bit : Platform → Option PageSize → ℕ → Bool
huge_bit p none i = false
huge_bit p (some size) i = p.contains (huge_page_flag p.constants size) (2 ^ i)

module _ (p : Platform) (c : HasFlags p) (i : ℕ) (no_flag : (f : MapFlag) → c.map_bit f ≢ i) where
  abbrev has : ℕ → Bool
  has x = p.contains x (2 ^ i)

  has-map_flag : (f : MapFlag) → has (p.map_flag f) ≡ false
  has-map_flag f = rw (c.map_flag-pow, c.bits.contains-bit) (ground (arith, no_flag f))

  has-union : (x y : ℕ) → has (p.union x y) ≡ (has x || has y)
  has-union x y = c.bits.contains-union x y i

  or_false : (b : Bool) → (b || false) ≡ b
  or_false b = ground arith

  has-add_if : (b : Bool) (f : MapFlag) (x : ℕ) → has (add_if p b (p.map_flag f) x) ≡ has x
  unfolding add_if
  has-add_if true f x = rw (has-union, has-map_flag) (or_false (has x))
  has-add_if false f x = refl

  has-add_page_size :
      (size : Option PageSize) (x : ℕ) → has (add_page_size p size x) ≡ (has x || huge_bit p size i)
  unfolding add_page_size
  has-add_page_size none x = sym (or_false (has x))
  has-add_page_size (some size) x = rw (has-union, has-union, has-map_flag) (rw or_false)

  has-branch : (b : Bool) (x y : ℕ) → has (if b then x else y) ≡ (if b then has x else has y)
  has-branch true x y = refl
  has-branch false x y = refl

  -- Where each flag of `mmap` is a bit of its own: a bit that belongs to none of these flags is
  -- requested of `mmap` exactly on Android and Linux, and there exactly when the constant of
  -- the page size has it.
  pub flags-huge_bit :
      (o : MmapOptions)
      → p.contains (flags p o) (2 ^ i) ≡ (linux_like p.target.os && huge_bit p o.page_size i)
  unfolding flags
  flags-huge_bit o =
      simp
        (has-add_if, has-add_page_size, has-union, has-branch, has-map_flag, c.bits.contains-empty)
        (ground arith)

not_huge :
    (p : Platform) (size : PageSize)
    → is_huge size.log2 ≡ false
    → huge_page_flag p.constants size ≡ 0
unfolding huge_page_flag
not_huge p size h = ground arith

-- Where each flag of `mmap` is a bit of its own: on Android and Linux, a page size with no
-- constant of its own requests `MAP_HUGETLB`, and no bit beside the flags, which asks for huge
-- pages of the system's default size.
pub default_huge_pages :
    (p : Platform) (c : HasFlags p) (o : MmapOptions) (size : PageSize)
    → linux_like p.target.os ≡ true
    → o.page_size ≡ some size
    → is_huge size.log2 ≡ false
    → (i : ℕ) → ((f : MapFlag) → c.map_bit f ≢ i)
    → (p.contains (flags p o) (p.map_flag map_hugetlb) ≡ true)
      × (p.contains (flags p o) (2 ^ i) ≡ false)
default_huge_pages p c o size linux given small i no_flag =
    let small_bit : (linux_like p.target.os && huge_bit p o.page_size i) ≡ false = ground (
      arith,
      c.bits.contains-empty i,
      ap (λ (t : ℕ). p.contains t (2 ^ i)) (not_huge p size small),
    ) in
    (contains-flags p c o map_hugetlb ∙ ground arith, flags-huge_bit p c i no_flag o ∙ small_bit)
