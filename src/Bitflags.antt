-- ===== src/Bitflags.antt =====
-- The methods that the `bitflags!` macro generates, on the `bits` of a value. The crate `bitflags`
-- is not part of the repository: its operations are the fields of an interface, and what its
-- documentation says of them is the record of laws.
pub mod Native
use mmap_rs.Common.{ℕ, ◌^◌, ◌≡◌, if◌then◌else◌, Bool, false, ◌||◌, ◌==◌}

pub record Bitflags : Type 0 where
  -- `a | b` and `a |= b`
  pub union : ℕ → ℕ → ℕ
  -- `a.contains(b)`
  pub contains : ℕ → ℕ → Bool

-- `if condition { flags |= flag; }`
abbrev pub add_if : Bitflags → Bool → ℕ → ℕ → ℕ
add_if b condition flag flags = if condition then b.union flags flag else flags

-- The laws speak of flags with one bit, `1 << i`.
pub record IsLawful (b : Bitflags) : Type 0 where
  pub contains-empty : (i : ℕ) → b.contains 0 (2 ^ i) ≡ false
  pub contains-bit : (i j : ℕ) → b.contains (2 ^ i) (2 ^ j) ≡ (i == j)
  pub contains-union :
      (x y i : ℕ)
      → b.contains (b.union x y) (2 ^ i) ≡ (b.contains x (2 ^ i) || b.contains y (2 ^ i))
