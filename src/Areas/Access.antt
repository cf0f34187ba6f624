-- ===== src/Areas/Access.antt =====
-- The protection of a memory area that src/os_impl/freebsd.rs and src/os_impl/macos.rs put together
-- bit by bit.
use mmap_rs.Common.{ℕ, ◌^◌, ◌≡◌, refl, Bool, true, false, ◌||◌, ◌==◌, if◌then◌else◌, arith}
use mmap_rs.Bitflags.{Bitflags, IsLawful, add_if}
use mmap_rs.Areas.Protection

module _ (b : Bitflags) (law : IsLawful b) where
  has-add_if :
      (condition : Bool) (i j x : ℕ)
      → b.contains (add_if b condition (2 ^ i) x) (2 ^ j)
        ≡ (if condition then b.contains x (2 ^ j) || (i == j) else b.contains x (2 ^ j))
  has-add_if true i j x = rw (law.contains-union, law.contains-bit) refl
  has-add_if false i j x = refl

  -- The protection has each kind of access exactly as it was added.
  pub access-add_if :
      (r w x : Bool)
      → let protection =
          add_if b x Protection.execute
            (add_if b w Protection.write (add_if b r Protection.read 0)) in
        (b.contains protection Protection.read ≡ r)
        × (b.contains protection Protection.write ≡ w)
        × (b.contains protection Protection.execute ≡ x)
  access-add_if r w x = (
    simp (has-add_if, law.contains-empty) (ground arith),
    simp (has-add_if, law.contains-empty) (ground arith),
    simp (has-add_if, law.contains-empty) (ground arith),
  )
