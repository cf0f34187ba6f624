-- ===== src/Utf8.antt =====
-- `std::str::from_utf8` of the standard library, as src/os_impl/freebsd.rs and src/os_impl/macos.rs
-- use it: bytes to characters, or the number of bytes in front that are valid.
use mmap_rs.Common.{
  ℕ, ◌+◌, ◌-◌, ◌*◌, ◌≡◌, refl, true, ◌&&◌, List, [], ◌∷◌, ltb, leb, ◌==◌, if◌then◌else◌, All,
}
use mmap_rs.Error.{Result, ok, err}

-- How many bytes of the character are missing, the bounds of the next one, and the bits so far.
record Partial : Type 0 where
  missing : ℕ
  low : ℕ
  high : ℕ
  bits : ℕ

-- After the first byte of a character: `missing` is 0 where the byte begins none.
abbrev begin : ℕ → Partial
begin b =
    if leb 0xc2 b && leb b 0xdf
    then record { missing = 1; low = 0x80; high = 0xbf; bits = b - 0xc0 }
    else if b == 0xe0
    then record { missing = 2; low = 0xa0; high = 0xbf; bits = b - 0xe0 }
    else if b == 0xed
    then record { missing = 2; low = 0x80; high = 0x9f; bits = b - 0xe0 }
    else if leb 0xe1 b && leb b 0xef
    then record { missing = 2; low = 0x80; high = 0xbf; bits = b - 0xe0 }
    else if b == 0xf0
    then record { missing = 3; low = 0x90; high = 0xbf; bits = b - 0xf0 }
    else if leb 0xf1 b && leb b 0xf3
    then record { missing = 3; low = 0x80; high = 0xbf; bits = b - 0xf0 }
    else if b == 0xf4
    then record { missing = 3; low = 0x80; high = 0x8f; bits = b - 0xf0 }
    else record { missing = 0; low = 0; high = 0; bits = 0 }

-- One more byte.
abbrev advance : Partial → ℕ → Partial
advance c b = record {
  missing = c.missing - 1;
  low = 0x80;
  high = 0xbf;
  bits = c.bits * 64 + (b - 0x80);
}

abbrev push : ℕ → Result ℕ (List ℕ) → Result ℕ (List ℕ)
push c (ok cs) = ok (c ∷ cs)
push c (err e) = err e

-- `valid` is the place where the character that is being read begins, and `length` its bytes so far.
unfoldable mutual
  scan_char : ℕ → ℕ → Partial → List ℕ → Result ℕ (List ℕ)
  scan_char valid length c [] = err valid
  scan_char valid length c (b ∷ bytes) =
      let last = scan (valid + length + 1) bytes in
      let more = scan_char valid (length + 1) (advance c b) bytes in
      if leb c.low b && leb b c.high
      then if c.missing == 1 then push (advance c b).bits last else more
      else err valid

  scan : ℕ → List ℕ → Result ℕ (List ℕ)
  scan valid [] = ok []
  scan valid (b ∷ bytes) =
      let ascii = scan (valid + 1) bytes in
      let rest = scan_char valid 1 (begin b) bytes in
      if ltb b 0x80 then push b ascii else if (begin b).missing == 0 then err valid else rest

unfoldable pub from_utf8 : List ℕ → Result ℕ (List ℕ)
unfolding scan
from_utf8 = scan 0

abbrev pub IsAscii : ℕ → Type 0
IsAscii b = ltb b 0x80 ≡ true

scan-ascii : (valid : ℕ) (bytes : List ℕ) → All IsAscii bytes → scan valid bytes ≡ ok bytes
unfolding scan
scan-ascii valid [] h = refl
scan-ascii valid (b ∷ bytes) (hb, h) = rw (hb, scan-ascii (valid + 1) bytes h) refl

-- ASCII is read as it is.
pub from_utf8-ascii : (bytes : List ℕ) → All IsAscii bytes → from_utf8 bytes ≡ ok bytes
unfolding from_utf8
from_utf8-ascii bytes h = scan-ascii 0 bytes h

-- The euro sign, and a text that breaks off inside it.
euro : from_utf8 (0x41 ∷ 0xe2 ∷ 0x82 ∷ 0xac ∷ []) ≡ ok (0x41 ∷ 0x20ac ∷ [])
unfolding from_utf8 scan
euro = refl

broken_euro : from_utf8 (0x41 ∷ 0xe2 ∷ 0x82 ∷ []) ≡ err 1
unfolding from_utf8 scan
broken_euro = refl
