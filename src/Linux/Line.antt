-- ===== src/Linux/Line.antt =====
-- A line of `/proc/<pid>/maps` as the kernel writes it, and what `memory_region` and `next` of
-- src/os_impl/linux.rs make of it.
pub mod Reads
use mmap_rs.Common.{
  ℕ, ◌+◌, ◌^◌, ◌<◌, ◌≡◌, ◌≢◌, refl, ap, Bool, true, false, not, ◌&&◌, List, [], ◌∷◌, ◌++◌, arith,
  ltb, if◌then◌else◌, Option, none, some,
}
use mmap_rs.Error.{io, ok}
use mmap_rs.Bitflags.{Bitflags}
use mmap_rs.Areas.{ShareMode, private, copy_on_write, shared, PathBuf, MemoryArea}
use mmap_rs.Areas.Protection
use mmap_rs.Linux.Combine.{is_whitespace, is_hex_digit, Combine, IsCombine}
use mmap_rs.Linux.Number.Value.{hex_value}
use mmap_rs.Linux.Region.{
  make_range, make_permissions, make_device, hex_number, address_range, permissions, device_id,
  memory_region, next,
}
use mmap_rs.Linux.Gives.{
  Gives, Stops, Passes, not_newline, path_of, pair-Gives, map-Gives, token-Gives, spaces-Gives,
  either-Gives, hex_number-Gives,
}

-- The fields of a line: five numbers and the inode as texts, four permission letters, the padding
-- and the path.
pub record Line : Type 0 where
  pub start : List ℕ
  pub end : List ℕ
  pub readable : Bool
  pub writable : Bool
  pub executable : Bool
  pub is_shared : Bool
  pub offset : List ℕ
  pub major : List ℕ
  pub minor : List ℕ
  pub inode : List ℕ
  pub padding : List ℕ
  pub path : List ℕ

abbrev pub IsNumber : List ℕ → Type 0
IsNumber t = (t ≢ []) × Passes is_hex_digit t

pub record IsLine (l : Line) : Type 0 where
  pub start : IsNumber l.start
  pub end : IsNumber l.end
  pub offset : IsNumber l.offset
  pub major : IsNumber l.major
  pub minor : IsNumber l.minor
  pub inode : IsNumber l.inode
  pub padding : Passes is_whitespace l.padding
  pub path : Passes not_newline l.path
  pub path_start : Stops is_whitespace l.path

-- The text of the line, from one of its parts to the end.
abbrev pub from_inode : Line → List ℕ
from_inode l = l.inode ++ 0x20 ∷ (l.padding ++ l.path)

abbrev pub from_device : Line → List ℕ
from_device l = l.major ++ b':' ∷ (l.minor ++ 0x20 ∷ from_inode l)

abbrev pub letters : Line → List ℕ → List ℕ
letters l rest =
    (if l.readable then b'r' else b'-')
    ∷ (if l.writable then b'w' else b'-')
    ∷ (if l.executable then b'x' else b'-')
    ∷ (if l.is_shared then b's' else b'p')
    ∷ rest

abbrev pub from_letters : Line → List ℕ
from_letters l = letters l (0x20 ∷ (l.offset ++ 0x20 ∷ from_device l))

unfoldable pub text : Line → List ℕ
text l = l.start ++ b'-' ∷ (l.end ++ 0x20 ∷ from_letters l)

-- The numbers fit the types that the parsers read them into.
abbrev fits_bits : ℕ → List ℕ → Bool
fits_bits w t = ltb (hex_value 0 t) (2 ^ w)

unfoldable pub fits : ℕ → Line → Bool
fits width l =
    fits_bits width l.start
    && fits_bits width l.end
    && fits_bits 64 l.offset
    && fits_bits 8 l.major
    && fits_bits 8 l.minor

-- How the area is shared: a private one with a path is copied on write.
abbrev pub sharing : Bool → List ℕ → ShareMode
sharing true path = shared
sharing false [] = private
sharing false (x ∷ path) = copy_on_write

abbrev pub path_and_offset : List ℕ → ℕ → Option (PathBuf × ℕ)
path_and_offset [] offset = none
path_and_offset (x ∷ path) offset = some (x ∷ path, offset)

-- The memory area that the line describes.
unfoldable pub area : Bitflags → Line → MemoryArea
area b l = record {
  range = record { start = hex_value 0 l.start; end = hex_value 0 l.end };
  protection =
      b.union
        (b.union (if l.readable then Protection.read else 0)
          (if l.writable then Protection.write else 0))
        (if l.executable then Protection.execute else 0);
  share_mode = sharing l.is_shared l.path;
  path = path_and_offset l.path (hex_value 0 l.offset);
}

not_whitespace : (x : ℕ) → is_hex_digit x ≡ true → is_whitespace x ≡ false
unfolding is_hex_digit is_whitespace
not_whitespace x h = ground arith

pub number-Stops : (t rest : List ℕ) → IsNumber t → Stops is_whitespace (t ++ rest)
number-Stops [] rest (ne, h) = absurd (ne refl)
number-Stops (x ∷ t) rest (ne, h) = not_whitespace x h.0

pub letters-Stops : (l : Line) (rest : List ℕ) → Stops is_whitespace (letters l rest)
unfolding is_whitespace
letters-Stops l rest = ground arith

module _ (b : Bitflags) (c : Combine) (k : IsCombine c) (width : ℕ) where
  pub number-Gives :
      (w : ℕ) (t rest : List ℕ) (x : ℕ)
      → is_hex_digit x ≡ false
      → IsNumber t
      → Gives c (hex_number b c width w) (t ++ x ∷ rest) (fits_bits w t) (hex_value 0 t) (x ∷ rest)
  number-Gives w t rest x stop (ne, h) = hex_number-Gives c k b width w t (x ∷ rest) ne h stop

  -- One blank, as the kernel writes it between two fields.
  pub blank-Gives :
      (rest : List ℕ) → Stops is_whitespace rest → Gives c c.spaces (0x20 ∷ rest) true tt rest
  unfolding is_whitespace
  blank-Gives rest stop = spaces-Gives c k (0x20 ∷ []) rest (refl, tt) stop

  pub address_range-Gives :
      (l : Line)
      → IsLine l
      → Gives c
          (address_range b c width)
          (text l)
          (fits_bits width l.start && (true && fits_bits width l.end))
          (record { start = hex_value 0 l.start; end = hex_value 0 l.end })
          (0x20 ∷ from_letters l)
  unfolding address_range text is_hex_digit
  address_range-Gives l h = map-Gives c k make_range (
      pair-Gives c k (number-Gives width l.start _ b'-' refl h.start)
        (pair-Gives c k (token-Gives c k b'-' _) (number-Gives width l.end _ 0x20 refl h.end)))

  pub permissions-Gives :
      (l : Line) (rest : List ℕ)
      → Gives c
          (permissions b c width)
          (letters l rest)
          true
          (make_permissions b (
            (if l.readable then Protection.read else 0),
            (
              (if l.writable then Protection.write else 0),
              (
                (if l.executable then Protection.execute else 0),
                (if l.is_shared then shared else private),
              ),
            ),
          ))
          rest
  unfolding permissions
  permissions-Gives l rest = map-Gives c k (make_permissions b) (
      pair-Gives c k (either-Gives c k b width _ _ _ _ l.readable _ refl) (
        pair-Gives c k (either-Gives c k b width _ _ _ _ l.writable _ refl) (
          pair-Gives c k (either-Gives c k b width _ _ _ _ l.executable _ refl)
            (either-Gives c k b width _ _ _ _ l.is_shared _ refl))))

  pub device_id-Gives :
      (l : Line)
      → IsLine l
      → Gives c
          (device_id b c width)
          (from_device l)
          (fits_bits 8 l.major && (true && fits_bits 8 l.minor))
          (hex_value 0 l.major, hex_value 0 l.minor)
          (0x20 ∷ from_inode l)
  unfolding device_id is_hex_digit
  device_id-Gives l h = map-Gives c k make_device (
      pair-Gives c k (number-Gives 8 l.major _ b':' refl h.major)
        (pair-Gives c k (token-Gives c k b':' _) (number-Gives 8 l.minor _ 0x20 refl h.minor)))
