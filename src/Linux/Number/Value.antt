-- ===== src/Linux/Number/Value.antt =====
-- What `from_str_radix(s, 16)` accepts, and what it returns.
use native.Mathlib.Nat.{one-le-pow}
use mmap_rs.Common.{
  ℕ, ◌+◌, ◌*◌, ◌^◌, ◌≤◌, ◌<◌, ◌≡◌, ◌≢◌, refl, true, false, Option, none, some, List, [], ◌∷◌, arith,
  ltb, ltb→lt, ◌==◌, if◌then◌else◌, unwrap_or, All, inl, inr, Bool-cases,
}
use mmap_rs.Linux.Combine.{is_hex_digit}
use mmap_rs.Linux.Number.{to_digit, push_digit, scan_digits, from_str_radix_16}

-- The number that a text of hexadecimal digits spells behind `acc`, with no bound.
abbrev pub hex_value : ℕ → List ℕ → ℕ
hex_value acc [] = acc
hex_value acc (c ∷ s) = hex_value (acc * 16 + unwrap_or (to_digit c) 0) s

abbrev pub IsHexDigit : ℕ → Type 0
IsHexDigit c = is_hex_digit c ≡ true

to_digit-some : (c : ℕ) → IsHexDigit c → (d : ℕ) × (to_digit c ≡ some d)
unfolding to_digit is_hex_digit
to_digit-some c h = (unwrap_or (to_digit c) 0, ground arith)

le-hex_value : (acc : ℕ) (s : List ℕ) → acc ≤ hex_value acc s
le-hex_value acc [] = omega arith
le-hex_value acc (c ∷ s) = omega (arith, le-hex_value (acc * 16 + unwrap_or (to_digit c) 0) s)

scan_digits-none : (w : ℕ) (s : List ℕ) → scan_digits w none s ≡ none
unfolding scan_digits
scan_digits-none w [] = refl
scan_digits-none w (c ∷ s) = refl

-- A number if it fits `w` bits.
abbrev pub fitting : ℕ → ℕ → Option ℕ
fitting w n = if ltb n (2 ^ w) then some n else none

-- One step: the digits so far fit, or the whole text does not.
push-fitting :
    (w n : ℕ) (s : List ℕ)
    → (n < 2 ^ w → scan_digits w (some n) s ≡ fitting w (hex_value n s))
    → scan_digits w (fitting w n) s ≡ fitting w (hex_value n s)
push-fitting w n s ih = elim (Bool-cases (ltb n (2 ^ w))) [
  | inl small ↦ rw small (ih (ltb→lt _ _ small))
  | inr large ↦ rw (large, scan_digits-none) (ground (arith, le-hex_value n s))
]

scan_digits-fitting :
    (w acc : ℕ) (s : List ℕ)
    → All IsHexDigit s
    → acc < 2 ^ w
    → scan_digits w (some acc) s ≡ fitting w (hex_value acc s)
unfolding scan_digits push_digit
scan_digits-fitting w acc [] h fits = ground arith
scan_digits-fitting w acc (c ∷ s) (hc, hs) fits =
    let (d, is) = to_digit-some c hc in
    rw is (push-fitting w (acc * 16 + d) s (scan_digits-fitting w (acc * 16 + d) s hs))

not_plus : (c : ℕ) → IsHexDigit c → (c == b'+') ≡ false
unfolding is_hex_digit
not_plus c h = ground arith

-- A text of one or more hexadecimal digits is read as the number that it spells if that fits the
-- type, and is refused if it does not.
pub from_str_radix_16-fitting :
    (w : ℕ) (s : List ℕ)
    → s ≢ []
    → All IsHexDigit s
    → from_str_radix_16 w s ≡ fitting w (hex_value 0 s)
unfolding from_str_radix_16
from_str_radix_16-fitting w [] ne h = absurd (ne refl)
from_str_radix_16-fitting w (c ∷ []) ne h =
    scan_digits-fitting w 0 (c ∷ []) h (one-le-pow w 2 (omega arith))
from_str_radix_16-fitting w (c ∷ d ∷ s) ne h =
    rw (not_plus c h.0) (scan_digits-fitting w 0 (c ∷ d ∷ s) h (one-le-pow w 2 (omega arith)))
