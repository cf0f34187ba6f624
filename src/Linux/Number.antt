-- ===== src/Linux/Number.antt =====
-- `from_str_radix(s, 16)` of the standard library's unsigned integers, on the characters of a text.
pub mod Value
use mmap_rs.Common.{
  ℕ, ◌+◌, ◌-◌, ◌*◌, ◌^◌, ◌&&◌, leb, ltb, ◌==◌, Option, none, some, List, [], ◌∷◌, if◌then◌else◌,
}

-- `char::to_digit(16)`
unfoldable pub to_digit : ℕ → Option ℕ
to_digit c =
    if leb b'0' c && leb c b'9'
    then some (c - b'0')
    else if leb b'a' c && leb c b'f'
    then some (c - b'a' + 10)
    else if leb b'A' c && leb c b'F'
    then some (c - b'A' + 10)
    else none

-- One more digit `d` behind `acc`, where the number fits `w` bits.
unfoldable pub push_digit : ℕ → ℕ → Option ℕ → Option ℕ
push_digit w acc none = none
push_digit w acc (some d) = if ltb (acc * 16 + d) (2 ^ w) then some (acc * 16 + d) else none

unfoldable pub scan_digits : ℕ → Option ℕ → List ℕ → Option ℕ
scan_digits w acc [] = acc
scan_digits w none (c ∷ s) = none
scan_digits w (some acc) (c ∷ s) = scan_digits w (push_digit w acc (to_digit c)) s

-- An empty text is refused, and so is a sign alone.
unfoldable pub from_str_radix_16 : ℕ → List ℕ → Option ℕ
from_str_radix_16 w [] = none
from_str_radix_16 w (c ∷ []) = scan_digits w (some 0) (c ∷ [])
from_str_radix_16 w (c ∷ d ∷ s) = scan_digits w (some 0) (if c == b'+' then d ∷ s else c ∷ d ∷ s)
