-- ===== src/Linux/Line/Reads.antt =====
-- What `memory_region` and `MemoryAreas::next` of src/os_impl/linux.rs return on the lines that the
-- kernel writes.
use mmap_rs.Common.{
  collect, collect-some, collect-none, ℕ, ◌≡◌, refl, ◌∙◌, ap, subst, Bool, true, false, ◌&&◌, none,
  some, List, [], ◌∷◌, ◌++◌, map, length, suc, zero, ◌<◌, All, arith, map_option, if◌then◌else◌,
}
use mmap_rs.Error.{Error, io, Result, ok, err}
use mmap_rs.Areas.{private, shared, MemoryArea}
use mmap_rs.Bitflags.{Bitflags}
use mmap_rs.Linux.Combine.{is_hex_digit, is_whitespace, Combine, easy_parse, IsCombine}
use mmap_rs.Linux.Region.{make_area, share_mode_of, memory_region, hex_digit1, path, next, Lines}
use mmap_rs.Linux.Number.Value.{hex_value}
use mmap_rs.Linux.Gives.{
  Gives, pair-Gives, map-Gives, spaces-Gives, optional_path-Gives, hex_digit1-Gives, path_of,
}
use mmap_rs.Linux.Line.{
  Line, IsLine, text, fits, sharing, path_and_offset, area, fits_bits, from_inode, from_device,
  number-Stops, letters-Stops, number-Gives, blank-Gives, address_range-Gives, permissions-Gives,
  device_id-Gives,
}

-- The order in which the parser comes to the numbers.
same_fits :
    (s e o major minor : Bool)
    → ((s && (true && e))
        && (true
            && (true && (true && (o && (true && ((major && (true && minor)) && (true && true))))))))
      ≡ (s && e && o && major && minor)
same_fits true true true true true = refl
same_fits true true true true false = refl
same_fits true true true false minor = refl
same_fits true true false major minor = refl
same_fits true false o major minor = refl
same_fits false e o major minor = refl

sharing-share_mode_of :
    (is_shared : Bool) (name : List ℕ)
    → share_mode_of (path_of name) (if is_shared then shared else private) ≡ sharing is_shared name
unfolding share_mode_of
sharing-share_mode_of true [] = refl
sharing-share_mode_of true (x ∷ name) = refl
sharing-share_mode_of false [] = refl
sharing-share_mode_of false (x ∷ name) = refl

path_and_offset-path_of :
    (name : List ℕ) (offset : ℕ)
    → map_option (λ p. (p, offset)) (path_of name) ≡ path_and_offset name offset
path_and_offset-path_of [] offset = refl
path_and_offset-path_of (x ∷ name) offset = refl

-- The area with its share mode and path as the code computes them.
abbrev as_computed : Bitflags → Line → MemoryArea
as_computed b l = record (area b l) {
  share_mode = share_mode_of (path_of l.path) (if l.is_shared then shared else private);
  path = map_option (λ p. (p, hex_value 0 l.offset)) (path_of l.path);
}

as_computed-area : (b : Bitflags) (l : Line) → as_computed b l ≡ area b l
unfolding area
as_computed-area b l = λ i. record (area b l) {
  share_mode = sharing-share_mode_of l.is_shared l.path i;
  path = path_and_offset-path_of l.path (hex_value 0 l.offset) i;
}

module _ (b : Bitflags) (c : Combine) (k : IsCombine c) (width : ℕ) where
  inode-Gives :
      (l : Line)
      → IsLine l
      → Gives c
          (c.pair (hex_digit1 b c width) (c.pair c.spaces (c.optional (path b c width))))
          (from_inode l)
          true
          (l.inode, (tt, path_of l.path))
          []
  unfolding is_hex_digit is_whitespace
  inode-Gives l h =
      pair-Gives c k (hex_digit1-Gives c k b width l.inode _ h.inode.0 h.inode.1 refl) (
        pair-Gives c k (spaces-Gives c k (0x20 ∷ l.padding) l.path (refl, h.padding) h.path_start)
          (optional_path-Gives c k b width l.path h.path))

  memory_region-Gives :
      (l : Line)
      → IsLine l
      → Gives c (memory_region b c width) (text l) (fits width l) (area b l) []
  unfolding memory_region area fits is_hex_digit
  memory_region-Gives l h =
      subst (λ a. Gives c (memory_region b c width) (text l) (fits width l) a [])
        (as_computed-area b l)
        (subst (λ x. Gives c (memory_region b c width) (text l) x (as_computed b l) [])
          (same_fits (fits_bits width l.start) (fits_bits width l.end) (fits_bits 64 l.offset)
            (fits_bits 8 l.major) (fits_bits 8 l.minor))
          (map-Gives c k make_area (
            pair-Gives c k (address_range-Gives b c k width l h) (
              pair-Gives c k
                (blank-Gives b c k width _
                  (letters-Stops l (0x20 ∷ (l.offset ++ 0x20 ∷ from_device l))))
                (pair-Gives c k (permissions-Gives b c k width l _) (
                  pair-Gives c k (blank-Gives b c k width _ (number-Stops l.offset _ h.offset)) (
                    pair-Gives c k (number-Gives b c k width 64 l.offset _ 0x20 refl h.offset) (
                      pair-Gives c k (blank-Gives b c k width _ (number-Stops l.major _ h.major)) (
                        pair-Gives c k (device_id-Gives b c k width l h) (
                          pair-Gives c k
                            (blank-Gives b c k width _ (number-Stops l.inode _ h.inode))
                            (inode-Gives l h)))))))))))

  -- Where the parsers of `combine` obey their laws: a line as the kernel writes it is read
  -- whole, as the memory area that it describes, private with a path as copied on write, if its
  -- addresses fit `usize`, its offset 64 bits and the two numbers of its device 8 bits each; if
  -- one of them does not fit, the parser fails.
  pub memory_region-reads :
      (l : Line)
      → IsLine l
      → easy_parse c (memory_region b c width) (text l)
        ≡ (if fits width l then some (area b l, []) else none)
  memory_region-reads l h = (memory_region-Gives l h).result

  next-fitting :
      (l : Line) (lines : Lines b c width)
      → IsLine l
      → fits width l ≡ true
      → next b c width (ok (text l) ∷ lines) ≡ (some (ok (area b l)), lines)
  unfolding next
  next-fitting l lines h f = rw (memory_region-reads l h, f) refl

  next-unfitting :
      (l : Line) (lines : Lines b c width)
      → IsLine l
      → fits width l ≡ false
      → next b c width (ok (text l) ∷ lines) ≡ (none, lines)
  unfolding next
  next-unfitting l lines h f = rw (memory_region-reads l h, f) refl

  abbrev pub Fits : Line → Type 0
  Fits l = fits width l ≡ true

  -- A line as the kernel writes it, whose numbers all fit, or the error of reading one.
  abbrev pub Readable : Result ℕ Line → Type 0
  Readable (ok l) = IsLine l × Fits l
  Readable (err e) = Unit

  abbrev pub line_of : Result ℕ Line → Result ℕ (List ℕ)
  line_of (ok l) = ok (text l)
  line_of (err e) = err e

  abbrev pub item_of : Result ℕ Line → Result Error MemoryArea
  item_of (ok l) = ok (area b l)
  item_of (err e) = err (io e)

  next-Readable :
      (r : Result ℕ Line) (lines : Lines b c width)
      → Readable r
      → next b c width (line_of r ∷ lines) ≡ (some (item_of r), lines)
  unfolding next
  next-Readable (ok l) lines (h, f) = next-fitting l lines h f
  next-Readable (err e) lines _ = refl

  -- The iterator gives one item for each line; an error of reading does not stop it.
  pub collect-lines :
      (fuel : ℕ) (rs : List (Result ℕ Line))
      → length rs < fuel
      → All Readable rs
      → collect (next b c width) fuel (map line_of rs) ≡ map item_of rs
  unfolding next
  collect-lines zero rs more hs = absurd (omega (arith, more))
  collect-lines (suc fuel) [] more hs = refl
  collect-lines (suc fuel) (r ∷ rs) more (h, hs) =
      collect-some (next b c width) fuel (line_of r ∷ map line_of rs) (map line_of rs) (item_of r)
        (next-Readable r (map line_of rs) h)
      ∙ ap (λ xs. item_of r ∷ xs) (collect-lines fuel rs (omega (arith, more)) hs)

  -- Where the parsers of `combine` obey their laws: at the first line with a number that does
  -- not fit, the iterator returns `None` and no error, so that a client that stops there, after
  -- the areas of the lines before it, never sees that line nor any line behind it.
  pub collect-stops :
      (fuel : ℕ) (ls : List Line) (l : Line) (lines : Lines b c width)
      → length ls < fuel
      → All IsLine ls
      → All Fits ls
      → IsLine l
      → fits width l ≡ false
      → collect (next b c width) fuel (map (λ l. ok (text l)) ls ++ ok (text l) ∷ lines)
        ≡ map (λ l. ok (area b l)) ls
  collect-stops zero ls l lines more hs fs h f = absurd (omega (arith, more))
  collect-stops (suc fuel) [] l lines more hs fs h f =
      collect-none (next b c width) fuel (ok (text l) ∷ lines) lines (next-unfitting l lines h f)
  collect-stops (suc fuel) (x ∷ ls) l lines more (hx, hs) (fx, fs) h f =
      let rest : Lines b c width = map (λ l. ok (text l)) ls ++ ok (text l) ∷ lines in
      collect-some (next b c width) fuel (ok (text x) ∷ rest) rest (ok (area b x))
        (next-fitting x rest hx fx)
      ∙ ap (λ r. ok (area b x) ∷ r) (collect-stops fuel ls l lines (omega (arith, more)) hs fs h f)
