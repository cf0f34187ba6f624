-- ===== src/Format.antt =====
-- The texts of numbers that the formats `{}` and `{:x}` of the standard library print.
pub mod Reads
use mmap_rs.Common.{ℕ, zero, suc, ◌+◌, ◌-◌, ◌/◌, ◌%◌, ltb, List, [], ◌∷◌, if◌then◌else◌}

-- `char::from_digit`
abbrev pub from_digit : ℕ → ℕ
from_digit d = if ltb d 10 then b'0' + d else b'a' + (d - 10)

-- The digits of `n` in front of `out`, the last one first, at most `fuel` of them.
unfoldable pub digits : ℕ → ℕ → ℕ → List ℕ → List ℕ
digits base zero n out = out
digits base (suc fuel) n out =
    let rest = digits base fuel (n / base) (from_digit (n % base) ∷ out) in
    if ltb n base then from_digit n ∷ out else rest

-- A number of `w` bits has at most `w` digits, in every base.
unfoldable pub decimal : ℕ → ℕ → List ℕ
unfolding digits
decimal w n = digits 10 w n []

unfoldable pub hex : ℕ → ℕ → List ℕ
unfolding digits
hex w n = digits 16 w n []
