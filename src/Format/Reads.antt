-- ===== src/Format/Reads.antt =====
-- The texts of numbers of the standard library, read again.
use mmap_rs.Common.{
  ℕ, zero, suc, ◌+◌, ◌*◌, ◌/◌, ◌%◌, ◌^◌, ◌≤◌, ◌<◌, ◌≡◌, ◌≢◌, ap, sym, ◌∙◌, true, false, refl, ltb,
  List, [], ◌∷◌, arith, All, inl, inr, lt_or_le, unwrap_or,
}
use native.Mathlib.Nat.{
  mod-lt, le-div_iff_mul-le, div-add-mod', div-lt_iff_lt-mul, pow-suc, pow-zero, pow-le-pow_left,
}
use mmap_rs.Linux.Combine.{is_hex_digit}
use mmap_rs.Linux.Number.{to_digit}
use mmap_rs.Linux.Number.Value.{hex_value, IsHexDigit}
use mmap_rs.Format.{from_digit, digits, hex}

-- The number that a text spells behind `acc`.
abbrev pub value : ℕ → ℕ → List ℕ → ℕ
value base acc [] = acc
value base acc (c ∷ s) = value base (acc * base + unwrap_or (to_digit c) 0) s

to_digit-from_digit : (d : ℕ) → d < 16 → unwrap_or (to_digit (from_digit d)) 0 ≡ d
unfolding to_digit
to_digit-from_digit d h = ground arith

-- A text with a first character, which is not the digit 0.
abbrev pub Starts : List ℕ → Type 0
Starts [] = ⊥
Starts (c ∷ s) = c ≢ b'0'

from_digit-ne_zero : (d : ℕ) → d < 16 → 0 < d → from_digit d ≢ b'0'
from_digit-ne_zero d h positive = λ e. ground arith

module _ (base : ℕ) (some_digits : 2 ≤ base) (few_digits : base ≤ 16) where
  value-digits :
      (fuel n : ℕ) (out : List ℕ)
      → n < base ^ fuel
      → value base 0 (digits base fuel n out) ≡ value base n out
  unfolding digits
  value-digits zero n out h = ap (λ m. value base m out) (omega (arith, h, pow-zero base))
  value-digits (suc fuel) n out h = elim (lt_or_le n base) [
    | inl small ↦
        let it : ltb n base ≡ true = ground arith in
        let same = to_digit-from_digit n (omega (arith, few_digits)) in
        let read : 0 * base + unwrap_or (to_digit (from_digit n)) 0 ≡ n = omega (arith, same) in
        rw it (ap (λ d. value base d out) read)
    | inr large ↦
        let it : ltb n base ≡ false = ground arith in
        let shorter : n / base < base ^ fuel =
          (div-lt_iff_lt-mul (omega (arith, some_digits))).1 (rw (sym (pow-suc base fuel)) h) in
        let last : n % base < 16 =
          omega (arith, few_digits, mod-lt n {m = base} (omega (arith, some_digits))) in
        rw it (
          value-digits fuel (n / base) (from_digit (n % base) ∷ out) shorter
          ∙ ap (λ d. value base (n / base * base + d) out) (to_digit-from_digit (n % base) last)
          ∙ ap (λ m. value base m out) (div-add-mod' n base))
  ]

  -- Every character is a digit.
  pub digits-All :
      (P : ℕ → Type 0) (fuel n : ℕ) (out : List ℕ)
      → ((d : ℕ) → d < base → P (from_digit d))
      → All P out
      → All P (digits base fuel n out)
  unfolding digits
  digits-All P zero n out hd h = h
  digits-All P (suc fuel) n out hd h = elim (lt_or_le n base) [
    | inl small ↦ let it : ltb n base ≡ true = ground arith in rw it (hd n small, h)
    | inr large ↦
        let it : ltb n base ≡ false = ground arith in
        let last : n % base < base = mod-lt n {m = base} (omega (arith, some_digits)) in
        rw it
          (digits-All P fuel (n / base) (from_digit (n % base) ∷ out) hd (hd (n % base) last, h))
  ]

  digits-ne-nil : (fuel n : ℕ) (c : ℕ) (out : List ℕ) → digits base fuel n (c ∷ out) ≢ []
  unfolding digits
  digits-ne-nil zero n c out = λ e. cc
  digits-ne-nil (suc fuel) n c out = elim (lt_or_le n base) [
    | inl small ↦ let it : ltb n base ≡ true = ground arith in rw it (λ e. cc)
    | inr large ↦
        let it : ltb n base ≡ false = ground arith in
        rw it (digits-ne-nil fuel (n / base) (from_digit (n % base)) (c ∷ out))
  ]

  pub digits-some : (fuel n : ℕ) → digits base (suc fuel) n [] ≢ []
  unfolding digits
  digits-some fuel n = elim (lt_or_le n base) [
    | inl small ↦ let it : ltb n base ≡ true = ground arith in rw it (λ e. cc)
    | inr large ↦
        let it : ltb n base ≡ false = ground arith in
        rw it (digits-ne-nil fuel (n / base) (from_digit (n % base)) [])
  ]

  -- The first digit of a number is not 0, or the number is 0.
  pub digits-Starts :
      (fuel n : ℕ) (out : List ℕ) → n < base ^ fuel → 0 < n → Starts (digits base fuel n out)
  unfolding digits
  digits-Starts zero n out h positive = absurd (omega (arith, h, pow-zero base))
  digits-Starts (suc fuel) n out h positive = elim (lt_or_le n base) [
    | inl small ↦
        let it : ltb n base ≡ true = ground arith in
        let below : n < 16 = omega (arith, few_digits) in
        rw it (from_digit-ne_zero n below positive)
    | inr large ↦
        let it : ltb n base ≡ false = ground arith in
        let shorter : n / base < base ^ fuel =
          (div-lt_iff_lt-mul (omega (arith, some_digits))).1 (rw (sym (pow-suc base fuel)) h) in
        rw it (
          digits-Starts fuel (n / base) (from_digit (n % base) ∷ out) shorter
            ((le-div_iff_mul-le (omega (arith, some_digits))).1 (omega (arith, large))))
  ]

  -- A number of `w` bits is read back.
  pub value-reads : (w n : ℕ) → n < 2 ^ w → value base 0 (digits base w n []) ≡ n
  value-reads w n h = value-digits w n [] (omega (arith, h, pow-le-pow_left some_digits w))

hex_value-value : (acc : ℕ) (s : List ℕ) → hex_value acc s ≡ value 16 acc s
hex_value-value acc [] = refl
hex_value-value acc (c ∷ s) = hex_value-value (acc * 16 + unwrap_or (to_digit c) 0) s

from_digit-IsHexDigit : (d : ℕ) → d < 16 → IsHexDigit (from_digit d)
unfolding is_hex_digit
from_digit-IsHexDigit d h = ground arith

-- What `{:x}` prints: one digit or more, which spell the number.
pub hex-some : (w n : ℕ) → 0 < w → hex w n ≢ []
unfolding hex
hex-some zero n pos = absurd (omega arith)
hex-some (suc w) n pos = digits-some 16 (omega arith) (omega arith) w n

pub hex-IsHexDigit : (w n : ℕ) → All IsHexDigit (hex w n)
unfolding hex
hex-IsHexDigit w n =
    digits-All 16 (omega arith) (omega arith) IsHexDigit w n [] from_digit-IsHexDigit tt

pub hex_value-hex : (w n : ℕ) → n < 2 ^ w → hex_value 0 (hex w n) ≡ n
unfolding hex
hex_value-hex w n h =
    hex_value-value 0 (digits 16 w n []) ∙ value-reads 16 (omega arith) (omega arith) w n h
