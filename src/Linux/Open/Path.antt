-- ===== src/Linux/Open/Path.antt =====
-- Which file `MemoryAreas::open` of src/os_impl/linux.rs opens.
use native.Mathlib.Nat.{pow-le-pow_left}
use mmap_rs.Common.{
  ℕ, zero, suc, ◌≤◌, ◌<◌, ◌^◌, ◌≡◌, ◌⊎◌, inl, inr, refl, ap, Option, none, some, List, [], ◌++◌,
  codes, arith, All, true, leb, ◌&&◌,
}
use mmap_rs.Error.{io, pure, convert, ◌>>=◌}
use mmap_rs.Bitflags.{Bitflags}
use mmap_rs.Format.{from_digit, digits, decimal}
use mmap_rs.Format.Reads.{value, value-reads, digits-All, Starts, digits-Starts}
use mmap_rs.Linux.Combine.{Combine}
use mmap_rs.Linux.Open.{Files, maps_path, open_lines}

-- A process ID has 32 bits.
abbrev pub IsPid : Option ℕ → Type 0
IsPid none = Unit
IsPid (some pid) = pid < 2 ^ 32

abbrev IsDecimal : ℕ → Type 0
IsDecimal c = (leb b'0' c && leb c b'9') ≡ true

from_digit-IsDecimal : (d : ℕ) → d < 10 → IsDecimal (from_digit d)
from_digit-IsDecimal d h = ground arith

two_le_ten : 2 ≤ 10
two_le_ten = omega arith

ten_le_sixteen : 10 ≤ 16
ten_le_sixteen = omega arith

decimal-IsDecimal : (n : ℕ) → All IsDecimal (decimal 32 n)
unfolding decimal
decimal-IsDecimal n =
    digits-All 10 two_le_ten ten_le_sixteen IsDecimal 32 n [] from_digit-IsDecimal tt

-- The decimal text of a number: digits, of which the first is not 0 unless it is the only one.
pub record Spells (n : ℕ) (t : List ℕ) : Type 0 where
  pub digits : All IsDecimal t
  pub leading : (t ≡ codes "0") ⊎ Starts t
  pub spelled : value 10 0 t ≡ n

zero_or_positive : (n : ℕ) → (n ≡ 0) ⊎ (0 < n)
zero_or_positive zero = inl refl
zero_or_positive (suc n) = inr (omega arith)

decimal-Spells : (n : ℕ) → n < 2 ^ 32 → Spells n (decimal 32 n)
unfolding decimal digits
decimal-Spells n fits = record {
  digits = decimal-IsDecimal n;
  leading = elim (zero_or_positive n) [
    | inl it ↦ inl (ap (λ m. decimal 32 m) it)
    | inr positive ↦ inr (
        digits-Starts 10 two_le_ten ten_le_sixteen 32 n []
          (omega (arith, fits, pow-le-pow_left two_le_ten 32)) positive)
  ];
  spelled = value-reads 10 two_le_ten ten_le_sixteen 32 n fits;
}

-- The path of the file that lists the memory areas of a process.
abbrev pub Names : Option ℕ → List ℕ → Type 0
Names none path = path ≡ codes "/proc/self/maps"
Names (some pid) path = (t : List ℕ) × Spells pid t × (path ≡ codes "/proc/" ++ t ++ codes "/maps")

maps_path-Names : (pid : Option ℕ) → IsPid pid → Names pid (maps_path pid)
unfolding maps_path
maps_path-Names none fits = refl
maps_path-Names (some pid) fits = (decimal 32 pid, decimal-Spells pid fits, refl)

-- For a process ID of 32 bits, or for the caller, `MemoryAreas::open` on Linux opens one file and
-- fails exactly as that does: /proc/self/maps for the caller, and otherwise /proc/<t>/maps, where
-- the text t spells the process ID in decimal, by digits of which the first is not 0 unless it is
-- the only one.
pub open_lines-Names :
    (f : Files) (b : Bitflags) (c : Combine) (width : ℕ) (pid : Option ℕ) (s : f.State)
    → IsPid pid
    → (path : List ℕ) × Names pid path
      × (open_lines f b c width pid s
          ≡ (convert io (f.open_file path) >>= (λ file. pure (f.lines file))) s)
unfolding open_lines
open_lines-Names f b c width pid s fits = (maps_path pid, maps_path-Names pid fits, refl)
