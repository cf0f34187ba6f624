-- ===== src/Unix/Libc.antt =====
-- What the code relies on of the constants of `nix`, which are those of the C library.
use mmap_rs.Common.{ℕ, ◌^◌, ◌≡◌, false, ◌==◌}
use mmap_rs.Bitflags.{IsLawful}
use mmap_rs.Unix.Platform.{
  MapFlag, map_shared, map_private, map_fixed, map_anonymous, map_populate, map_noreserve,
  map_hugetlb, map_aligned_super, map_locked, map_wired, map_stack, map_conceal, map_jit, HugeFlag,
  Platform,
}

-- The place of a flag in the list of the flags.
abbrev pub index : MapFlag → ℕ
index map_shared = 0
index map_private = 1
index map_fixed = 2
index map_anonymous = 3
index map_populate = 4
index map_noreserve = 5
index map_hugetlb = 6
index map_aligned_super = 7
index map_locked = 8
index map_wired = 9
index map_stack = 10
index map_conceal = 11
index map_jit = 12

-- Each flag is a bit of its own, and the sizes of huge pages lie in other bits.
pub record HasFlags (p : Platform) : Type 0 where
  pub bits : IsLawful p.bitflags
  pub map_bit : MapFlag → ℕ
  pub map_flag-pow : (f : MapFlag) → p.map_flag f ≡ 2 ^ map_bit f
  pub map_bit-index : (f g : MapFlag) → (map_bit f == map_bit g) ≡ (index f == index g)
  pub huge_flag-pow :
      (h : HugeFlag) (f : MapFlag) → p.contains (p.huge_flag h) (2 ^ map_bit f) ≡ false
