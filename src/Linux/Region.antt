-- ===== src/Linux/Region.antt =====
-- The parsers of src/os_impl/linux.rs for a line of `/proc/<pid>/maps`, and the iterator over the
-- memory areas.
use mmap_rs.Common.{ℕ, not, ◌==◌, Option, none, some, List, [], ◌∷◌, map_option}
use mmap_rs.Error.{Error, io, Result, ok, err}
use mmap_rs.Bitflags.{Bitflags}
use mmap_rs.Backend.{Range}
use mmap_rs.Areas.{ShareMode, private, copy_on_write, shared, PathBuf, MemoryArea}
use mmap_rs.Areas.Protection
use mmap_rs.Linux.Combine.{Combine, easy_parse}
use mmap_rs.Linux.Number.{from_str_radix_16}

abbrev pub make_range : ℕ × (ℕ × ℕ) → Range
make_range (start, (_, end)) = record { start = start; end = end }

abbrev pub make_device : ℕ × (ℕ × ℕ) → ℕ × ℕ
make_device (major, (_, minor)) = (major, minor)

-- `r | w | x`
abbrev pub make_permissions : Bitflags → ℕ × (ℕ × (ℕ × ShareMode)) → ℕ × ShareMode
make_permissions b (r, (w, (x, s))) = (b.union (b.union r w) x, s)

-- A private area of a file is copied on write.
unfoldable pub share_mode_of : Option PathBuf → ShareMode → ShareMode
share_mode_of (some path) private = copy_on_write
share_mode_of path share_mode = share_mode

-- The parts of a line, as `memory_region` takes them from the tuple of its parsers.
abbrev pub Fields : Type 0
Fields =
    Range
    × (Unit {0}
        × ((ℕ × ShareMode)
            × (Unit {0}
                × (ℕ
                    × (Unit {0}
                        × ((ℕ × ℕ) × (Unit {0} × (List ℕ × (Unit {0} × Option PathBuf)))))))))

abbrev pub make_area : Fields → MemoryArea
make_area (range, (_, ((protection, share_mode), (_, (offset, (_, (_, (_, (_, (_, path)))))))))) =
    record {
      range = range;
      protection = protection;
      share_mode = share_mode_of path share_mode;
      path = map_option (λ p. (p, offset)) path;
    }

-- `usize` has `width` bits.
module _ (b : Bitflags) (c : Combine) (width : ℕ) where
  -- parsers in a tuple
  infixr 60 ◌&◌
  abbrev ◌&◌ : {A B : Type 0} → c.Parser A → c.Parser B → c.Parser (A × B)
  p & q = c.pair p q

  unfoldable pub hex_digit1 : c.Parser (List ℕ)
  hex_digit1 = c.many1 c.hex_digit

  -- `hex_digit1().and_then(|s| from_str_radix(s, 16))`, for an unsigned integer of `w` bits
  unfoldable pub hex_number : ℕ → c.Parser ℕ
  hex_number w = c.and_then hex_digit1 (from_str_radix_16 w)

  unfoldable pub address_range : c.Parser Range
  address_range = c.map make_range (hex_number width & c.token b'-' & hex_number width)

  -- `or(char(x).map(|_| a), char(y).map(|_| b))`
  abbrev pub either : {A : Type 0} → ℕ → A → ℕ → A → c.Parser A
  either x a y b = c.or (c.map (λ _. a) (c.char x)) (c.map (λ _. b) (c.char y))

  unfoldable pub permissions : c.Parser (ℕ × ShareMode)
  permissions = c.map (make_permissions b) (
      either b'r' Protection.read b'-' 0
      & either b'w' Protection.write b'-' 0
      & either b'x' Protection.execute b'-' 0
      & either b's' shared b'p' private)

  unfoldable pub device_id : c.Parser (ℕ × ℕ)
  device_id = c.map make_device (hex_number 8 & c.token b':' & hex_number 8)

  unfoldable pub path : c.Parser PathBuf
  path = c.map (λ s. s) (c.many1 (c.satisfy (λ x. not (x == b'\n'))))

  unfoldable pub memory_region : c.Parser MemoryArea
  memory_region = c.map make_area (
      address_range
      & c.spaces
      & permissions
      & c.spaces
      & hex_number 64
      & c.spaces
      & device_id
      & c.spaces
      & hex_digit1
      & c.spaces
      & c.optional path)

  -- `Lines<B>`, by the lines that it has still to give: a line, or the error of reading it.
  abbrev pub Lines : Type 0
  Lines = List (Result ℕ (List ℕ))

  abbrev pub item : Option (MemoryArea × List ℕ) → Option (Result Error MemoryArea)
  item none = none
  item (some (area, rest)) = some (ok area)

  -- `MemoryAreas::next`
  unfoldable pub next : Lines → Option (Result Error MemoryArea) × Lines
  next [] = (none, [])
  next (ok line ∷ lines) = (item (easy_parse c memory_region line), lines)
  next (err e ∷ lines) = (some (err (io e)), lines)
