-- ===== src/Unix/Options/Requested.antt =====
-- Which flags `MmapOptions::flags` of src/os_impl/unix.rs requests of `mmap`, flag by flag.
use mmap_rs.Common.{
  ℕ, ◌^◌, ◌≡◌, refl, ◌∙◌, Bool, true, false, not, ◌&&◌, ◌||◌, Option, none, some, arith, ◌==◌,
  if◌then◌else◌, is_none, is_some,
}
use mmap_rs.Flags.MmapFlags
use mmap_rs.Flags.UnsafeMmapFlags
use mmap_rs.Flags.PageSize.{PageSize}
use mmap_rs.Unix.Platform.{
  linux_like, freebsd_like, stack_os, is_freebsd, is_netbsd, is_openbsd, apple, MapFlag, HugeFlag,
  map_shared, map_private, map_fixed, map_anonymous, map_populate, map_noreserve, map_hugetlb,
  map_aligned_super, map_locked, map_wired, map_stack, map_conceal, map_jit, Platform,
}
use mmap_rs.Unix.Libc.{index, HasFlags}
use mmap_rs.Unix.Options.{MmapOptions, huge_page_flag, add_if, add_page_size, flags}

-- The condition under which each flag of `mmap` is wanted.
abbrev pub wanted : Platform → MmapOptions → MapFlag → Bool
wanted p o map_shared = not (p.contains o.flags MmapFlags.copy_on_write)
wanted p o map_private = p.contains o.flags MmapFlags.copy_on_write
wanted p o map_fixed = p.contains o.unsafe_flags UnsafeMmapFlags.map_fixed
wanted p o map_anonymous = is_none o.file
wanted p o map_populate = linux_like p.target.os && p.contains o.flags MmapFlags.populate
wanted p o map_noreserve = not (freebsd_like p.target.os) && p.contains o.flags MmapFlags.no_reserve
wanted p o map_hugetlb =
    linux_like p.target.os && (p.contains o.flags MmapFlags.huge_pages || is_some o.page_size)
wanted p o map_aligned_super = is_freebsd p.target.os && p.contains o.flags MmapFlags.huge_pages
wanted p o map_locked = linux_like p.target.os && p.contains o.flags MmapFlags.locked
wanted p o map_wired = is_netbsd p.target.os && p.contains o.flags MmapFlags.locked
wanted p o map_stack = stack_os p.target.os && p.contains o.flags MmapFlags.stack
wanted p o map_conceal = is_openbsd p.target.os && p.contains o.flags MmapFlags.no_core_dump
wanted p o map_jit = apple p.target.os && p.contains o.unsafe_flags UnsafeMmapFlags.jit

-- A flag is there afterwards if it was there, or is the one that is added.
abbrev hit : Bool → Bool → Bool → Bool
hit true condition before = before || condition
hit false condition before = before

hit-true : (same before : Bool) → (before || same) ≡ hit same true before
hit-true same before = ground arith

hit-false : (same before : Bool) → before ≡ hit same false before
hit-false same before = ground arith

module _ (p : Platform) (c : HasFlags p) (g : MapFlag) where
  abbrev has : ℕ → Bool
  has x = p.contains x (2 ^ c.map_bit g)

  has-map_flag : (f : MapFlag) → has (p.map_flag f) ≡ (index f == index g)
  has-map_flag f = rw c.map_flag-pow (c.bits.contains-bit _ _ ∙ c.map_bit-index f g)

  has-union : (x y : ℕ) → has (p.union x y) ≡ (has x || has y)
  has-union x y = c.bits.contains-union x y (c.map_bit g)

  has-empty : has 0 ≡ false
  has-empty = c.bits.contains-empty (c.map_bit g)

  has-add_if :
      (b : Bool) (f : MapFlag) (x : ℕ)
      → has (add_if p b (p.map_flag f) x) ≡ hit (index f == index g) b (has x)
  unfolding add_if
  has-add_if true f x = rw (has-union, has-map_flag) (hit-true (index f == index g) (has x))
  has-add_if false f x = hit-false (index f == index g) (has x)

  has-huge_flag : (h : HugeFlag) → has (p.huge_flag h) ≡ false
  has-huge_flag h = c.huge_flag-pow h g

  has-if : (b : Bool) (x y : ℕ) → has x ≡ false → has y ≡ false → has (if b then x else y) ≡ false
  has-if true x y hx hy = hx
  has-if false x y hx hy = hy

  has-huge_page_flag : (size : PageSize) → has (huge_page_flag p.constants size) ≡ false
  unfolding huge_page_flag
  has-huge_page_flag size = search (has-if, has-huge_flag, has-empty) depth 15

  has-add_page_size :
      (size : Option PageSize) (x : ℕ)
      → has (add_page_size p size x) ≡ hit (index map_hugetlb == index g) (is_some size) (has x)
  unfolding add_page_size
  has-add_page_size none x = hit-false (index map_hugetlb == index g) (has x)
  has-add_page_size (some size) x =
      rw (has-union, has-union, has-map_flag, has-huge_page_flag)
        (ground (arith, hit-true (index map_hugetlb == index g) (has x)))

  has-branch : (b : Bool) (x y : ℕ) → has (if b then x else y) ≡ (if b then has x else has y)
  has-branch true x y = refl
  has-branch false x y = refl

  ruleset has_laws = (has-add_if, has-add_page_size, has-union, has-branch, has-map_flag, has-empty)

module _ (p : Platform) (c : HasFlags p) (o : MmapOptions) where
  has-flags : (g : MapFlag) → has p c g (flags p o) ≡ wanted p o g
  unfolding flags
  has-flags map_shared = simp has_laws (ground arith)
  has-flags map_private = simp has_laws (ground arith)
  has-flags map_hugetlb = simp has_laws (ground arith)
  has-flags map_anonymous = simp has_laws (ground arith)
  has-flags _ = simp has_laws (ground arith)

-- Where each flag of `mmap` is a bit of its own: on every system and for all options, a flag is
-- requested of `mmap` exactly when it is wanted.
pub contains-flags :
    (p : Platform)
    → HasFlags p
    → (o : MmapOptions) (g : MapFlag) → p.contains (flags p o) (p.map_flag g) ≡ wanted p o g
contains-flags p c o g = rw c.map_flag-pow (has-flags p c o g)
