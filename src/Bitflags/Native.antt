-- ===== src/Bitflags/Native.antt =====
-- The native operations on bits meet the laws of `Bitflags`: `&` and `|` of machine words.
use Prim.Native.Nat.{min, max, digits, bit_and, bit_or, bit_and-bitwise, bit_or-bitwise}
use native.Mathlib.Nat.{pow-suc, one-le-pow}
use mmap_rs.Common.{
  ℕ, zero, suc, ◌+◌, ◌*◌, ◌/◌, ◌%◌, ◌^◌, ◌≤◌, ◌≡◌, refl, ap, ◌||◌, arith, ◌==◌, if◌then◌else◌,
}
use mmap_rs.Bitflags.{Bitflags, IsLawful}

abbrev pub native_bitflags : Bitflags
native_bitflags = record { union = bit_or; contains = λ a b. bit_and a b == b }

-- Two counts of digits that both reach the end of the number read the same digits.
module _ (rest : ℕ → ℕ) (digit : ℕ → ℕ → ℕ) where
  enough_digits : (a b n m : ℕ) → a ≤ n → a ≤ m → digits rest digit n a b ≡ digits rest digit m a b
  enough_digits zero b zero zero h k = refl
  enough_digits zero b zero (suc m) h k = refl
  enough_digits zero b (suc n) zero h k = refl
  enough_digits zero b (suc n) (suc m) h k = refl
  enough_digits (suc a) b zero m h k = absurd (omega arith)
  enough_digits (suc a) b (suc n) zero h k = absurd (omega arith)
  enough_digits (suc a) b (suc n) (suc m) h k =
      rw (enough_digits (suc a / 2) (b / 2) n m (omega arith) (omega arith))

or_lowest : (a b : ℕ) → bit_or a b ≡ bit_or (a / 2) (b / 2) * 2 + max (a % 2) (b % 2)
or_lowest zero b = omega (arith, bit_or-bitwise 0 b, bit_or-bitwise 0 (b / 2))
or_lowest (suc a) b = omega (
  arith,
  bit_or-bitwise (suc a) b,
  bit_or-bitwise (suc a / 2) (b / 2),
  enough_digits (λ y. y) max (suc a / 2) (b / 2) a (suc a / 2) (omega arith) (omega arith),
)

and_lowest : (a b : ℕ) → bit_and a b ≡ bit_and (a / 2) (b / 2) * 2 + min (a % 2) (b % 2)
and_lowest zero b = omega (arith, bit_and-bitwise 0 b, bit_and-bitwise 0 (b / 2))
and_lowest (suc a) b = omega (
  arith,
  bit_and-bitwise (suc a) b,
  bit_and-bitwise (suc a / 2) (b / 2),
  enough_digits (λ y. 0) min (suc a / 2) (b / 2) a (suc a / 2) (omega arith) (omega arith),
)

-- The digit of `2 ^ i`.
abbrev bit : ℕ → ℕ → ℕ
bit a zero = a % 2
bit a (suc i) = bit (a / 2) i

bit-le-one : (a i : ℕ) → bit a i ≤ 1
bit-le-one a zero = omega arith
bit-le-one a (suc i) = bit-le-one (a / 2) i

bit-bit_or : (a b i : ℕ) → bit (bit_or a b) i ≡ max (bit a i) (bit b i)
bit-bit_or a b zero = omega (arith, or_lowest a b)
bit-bit_or a b (suc i) =
    let half : bit_or a b / 2 ≡ bit_or (a / 2) (b / 2) = omega (arith, or_lowest a b) in
    rw half (bit-bit_or (a / 2) (b / 2) i)

bit-zero : (i : ℕ) → bit 0 i ≡ 0
bit-zero zero = refl
bit-zero (suc i) = bit-zero i

half-pow : (i : ℕ) → 2 ^ suc i / 2 ≡ 2 ^ i
half-pow i = omega (arith, pow-suc 2 i)

bit-pow : (i j : ℕ) → bit (2 ^ i) j ≡ (if i == j then 1 else 0)
bit-pow zero zero = refl
bit-pow zero (suc j) = ground (arith, bit-zero j)
bit-pow (suc i) zero = grind (arith, pow-suc 2 i)
bit-pow (suc i) (suc j) = rw half-pow (ground (arith, bit-pow i j))

bit_and-zero : (n a : ℕ) → a ≤ n → bit_and a 0 ≡ 0
bit_and-zero zero zero h = refl
bit_and-zero zero (suc a) h = absurd (omega arith)
bit_and-zero (suc n) a h = omega (arith, and_lowest a 0, bit_and-zero n (a / 2) (omega arith))

bit_and-pow : (a i : ℕ) → bit_and a (2 ^ i) ≡ bit a i * 2 ^ i
bit_and-pow a zero = omega (arith, and_lowest a 1, bit_and-zero (a / 2) (a / 2) (omega arith))
bit_and-pow a (suc i) = omega (
  arith,
  and_lowest a (2 ^ suc i),
  pow-suc 2 i,
  ap (λ (t : ℕ). bit (a / 2) i * t) (pow-suc 2 i),
  ap (bit_and (a / 2)) (half-pow i),
  bit_and-pow (a / 2) i,
)

bool_of_bit : (d p : ℕ) → d ≤ 1 → 1 ≤ p → (d * p == p) ≡ (d == 1)
bool_of_bit zero p h k = ground arith
bool_of_bit (suc zero) p h k = ground arith
bool_of_bit (suc (suc d)) p h k = absurd (omega arith)

contains-pow : (a i : ℕ) → native_bitflags.contains a (2 ^ i) ≡ (bit a i == 1)
contains-pow a i =
    rw (bit_and-pow a i)
      (bool_of_bit (bit a i) (2 ^ i) (bit-le-one a i) (one-le-pow i 2 (omega arith)))

or_of_max : (d e : ℕ) → d ≤ 1 → e ≤ 1 → (max d e == 1) ≡ (d == 1 || e == 1)
or_of_max d e h k = ground arith

pub native_bitflags-IsLawful : IsLawful native_bitflags
native_bitflags-IsLawful = record {
  contains-empty = λ i. rw contains-pow (rw bit-zero);
  contains-bit = λ i j. rw (contains-pow, bit-pow) (ground arith);
  contains-union = λ x y i.
      rw (contains-pow, contains-pow, contains-pow, bit-bit_or)
        (or_of_max (bit x i) (bit y i) (bit-le-one x i) (bit-le-one y i));
}
