-- ===== src/Programs/ListAreas/Rows.antt =====
-- A row of examples/areas.rs, read with the parsers of src/os_impl/linux.rs.
use mmap_rs.Common.{
  ℕ, ◌^◌, ◌<◌, ◌≡◌, refl, subst, Bool, true, false, some, List, [], ◌∷◌, ◌++◌, ltb, ◌==◌, ◌&&◌,
  arith, unwrap_or, if◌then◌else◌,
}
use mmap_rs.Bitflags.{Bitflags, IsLawful}
use mmap_rs.Areas
use mmap_rs.Areas.{ShareMode, MemoryArea, private, shared}
use mmap_rs.Areas.Protection
use mmap_rs.Format.{hex}
use mmap_rs.Format.Reads.{hex-some, hex-IsHexDigit, hex_value-hex}
use mmap_rs.Backend.{Range}
use mmap_rs.Linux.Combine.{is_hex_digit, Combine, easy_parse, IsCombine}
use mmap_rs.Linux.Region.{make_range, hex_number, address_range, permissions}
use mmap_rs.Linux.Gives.{Gives, pair-Gives, map-Gives, token-Gives, hex_number-Gives}
use mmap_rs.Linux.Line.{Line, number-Stops, letters-Stops, permissions-Gives, blank-Gives}
use mmap_rs.Programs.ListAreas.{is_shared, row}

module _ (b : Bitflags) (law : IsLawful b) where
  has-if :
      (condition : Bool) (i j : ℕ)
      → b.contains (if condition then 2 ^ i else 0) (2 ^ j) ≡ (condition && (i == j))
  has-if true i j = law.contains-bit i j
  has-if false i j = law.contains-empty j

  -- The bits of three letters.
  read-access :
      (r w x : Bool)
      → let protection =
          b.union
            (b.union (if r then Protection.read else 0) (if w then Protection.write else 0))
            (if x then Protection.execute else 0) in
        (b.contains protection Protection.read ≡ r)
        × (b.contains protection Protection.write ≡ w)
        × (b.contains protection Protection.execute ≡ x)
  read-access r w x = (
    simp (law.contains-union, has-if) (ground arith),
    simp (law.contains-union, has-if) (ground arith),
    simp (law.contains-union, has-if) (ground arith),
  )

same_sharing : (s : Bool) → is_shared (if s then shared else private) ≡ s
same_sharing true = refl
same_sharing false = refl

module _ (b : Bitflags) (c : Combine) (k : IsCombine c) (width : ℕ) where
  hex-Gives :
      (w n x : ℕ) (rest : List ℕ)
      → n < 2 ^ w
      → 0 < w
      → is_hex_digit x ≡ false
      → Gives c (hex_number b c width w) (hex w n ++ x ∷ rest) true n (x ∷ rest)
  hex-Gives w n x rest fits pos stop =
      let read =
        hex_number-Gives c k b width w (hex w n) (x ∷ rest) (hex-some w n pos) (hex-IsHexDigit w n)
          stop in
      let it : ltb n (2 ^ w) ≡ true = ground arith in
      subst (λ e. Gives c (hex_number b c width w) (hex w n ++ x ∷ rest) e n (x ∷ rest)) it
        (subst
          (λ m. Gives c (hex_number b c width w) (hex w n ++ x ∷ rest) (ltb m (2 ^ w)) m (x ∷ rest))
          (hex_value-hex w n fits) read)

  -- The parsers for the addresses, the permissions and the offset of a line.
  abbrev pub Fields : Type 0
  Fields = Range × (Unit {0} × ((ℕ × ShareMode) × (Unit {0} × ℕ)))

  abbrev pub fields : c.Parser Fields
  fields =
      c.pair (address_range b c width) (
        c.pair c.spaces
          (c.pair (permissions b c width) (c.pair c.spaces (hex_number b c width 64))))

  -- The letters of the row, and what the parser for them makes of them.
  abbrev pub has : MemoryArea → ℕ → Bool
  has area access = b.contains area.protection access

  abbrev letters_of : MemoryArea → Line
  letters_of area = record {
    start = [];
    end = [];
    readable = has area Protection.read;
    writable = has area Protection.write;
    executable = has area Protection.execute;
    is_shared = is_shared area.share_mode;
    offset = [];
    major = [];
    minor = [];
    inode = [];
    padding = [];
    path = [];
  }

  abbrev behind_letters : MemoryArea → List ℕ
  behind_letters area =
      0x20
      ∷ (hex 64 (unwrap_or (Areas.file_offset area) 0) ++ 0x20 ∷ unwrap_or (Areas.path area) [])

  abbrev pub read_protection : MemoryArea → ℕ
  read_protection area =
      b.union
        (b.union (if has area Protection.read then Protection.read else 0)
          (if has area Protection.write then Protection.write else 0))
        (if has area Protection.execute then Protection.execute else 0)

  row-Gives :
      (area : MemoryArea)
      → area.range.start < 2 ^ width
      → area.range.end < 2 ^ width
      → unwrap_or (Areas.file_offset area) 0 < 2 ^ 64
      → 0 < width
      → Gives c fields
          (row b width area)
          true
          (
            area.range,
            (
              tt,
              (
                (read_protection area, if is_shared area.share_mode then shared else private),
                (tt, unwrap_or (Areas.file_offset area) 0),
              ),
            ),
          )
          (0x20 ∷ unwrap_or (Areas.path area) [])
  unfolding row address_range is_hex_digit Areas.start Areas.end Areas.protection Areas.share_mode
  row-Gives area start end offset pos =
      pair-Gives c k
        (map-Gives c k make_range (
          pair-Gives c k (hex-Gives width area.range.start b'-' _ start pos refl) (
            pair-Gives c k (token-Gives c k b'-' _)
              (hex-Gives width area.range.end 0x20 _ end pos refl))))
        (pair-Gives c k
          (blank-Gives b c k width _ (letters-Stops (letters_of area) (behind_letters area)))
          (pair-Gives c k (permissions-Gives b c k width (letters_of area) (behind_letters area)) (
            pair-Gives c k
              (blank-Gives b c k width _
                (number-Stops (hex 64 _) _ (hex-some 64 _ (omega arith), hex-IsHexDigit 64 _)))
              (hex-Gives 64 _ 0x20 _ offset (omega arith) refl))))

  -- The numbers of an area fit the types that they have.
  pub record Fits (area : MemoryArea) : Type 0 where
    pub start : area.range.start < 2 ^ width
    pub end : area.range.end < 2 ^ width
    pub offset : unwrap_or (Areas.file_offset area) 0 < 2 ^ 64
    pub width_pos : 0 < width

  -- What the parsers read in the row of an area.
  pub record ReadsBack (area : MemoryArea) : Type 0 where
    pub protection : ℕ
    pub share_mode : ShareMode
    pub parsed :
        easy_parse c fields (row b width area)
        ≡ some (
          (
            area.range,
            (tt, ((protection, share_mode), (tt, unwrap_or (Areas.file_offset area) 0))),
          ),
          0x20 ∷ unwrap_or (Areas.path area) [],
        )
    pub readable : b.contains protection Protection.read ≡ has area Protection.read
    pub writable : b.contains protection Protection.write ≡ has area Protection.write
    pub executable : b.contains protection Protection.execute ≡ has area Protection.execute
    pub is_shared : is_shared share_mode ≡ is_shared area.share_mode

  -- Where the parsers of `combine` and the operations on flags obey their laws: the row that
  -- examples/areas.rs prints for an area whose numbers fit their types is read back by the
  -- parsers of Linux for the addresses, the permissions and the offset: the same range, the
  -- same offset or 0, each kind of access exactly when the area has it, and shared exactly when
  -- the area is; the path is left.
  pub row-ReadsBack : IsLawful b → (area : MemoryArea) → Fits area → ReadsBack area
  row-ReadsBack law area f =
      let (r, w, x) =
        read-access b law (has area Protection.read) (has area Protection.write)
          (has area Protection.execute) in
      record {
        protection = read_protection area;
        share_mode = if is_shared area.share_mode then shared else private;
        parsed = (row-Gives area f.start f.end f.offset f.width_pos).result;
        readable = r;
        writable = w;
        executable = x;
        is_shared = same_sharing (is_shared area.share_mode);
      }
