-- ===== src/Linux/Combine.antt =====
-- The parsers of the crate `combine` that src/os_impl/linux.rs uses. The crate is not part of the
-- repository: its parsers are the fields of an interface, and what its documentation says of them
-- is the record of laws.
pub mod Direct
use mmap_rs.Common.{
  ℕ, ◌≡◌, Bool, ◌==◌, ◌||◌, ◌&&◌, leb, Option, none, some, List, [], ◌∷◌, if◌then◌else◌,
}

-- A parser returns a value and the input that is left; or it refuses, and has consumed no input;
-- or it fails after it has consumed some.
pub data Reply (A : Type 0) : Type 0 where
  parsed : A → List ℕ → Reply A
  refused : Reply A
  failed : Reply A

-- `Ok` or `Err`, as `easy_parse` returns it.
abbrev pub value : {A : Type 0} → Reply A → Option (A × List ℕ)
value (parsed a rest) = some (a, rest)
value refused = none
value failed = none

abbrev pub map_reply : {A B : Type 0} → (A → B) → Reply A → Reply B
map_reply f (parsed a rest) = parsed (f a) rest
map_reply f refused = refused
map_reply f failed = failed

abbrev pub or_reply : {A : Type 0} → Reply A → Reply A → Reply A
or_reply (parsed a rest) other = parsed a rest
or_reply refused other = other
or_reply failed other = failed

abbrev pub optional_reply : {A : Type 0} → List ℕ → Reply A → Reply (Option A)
optional_reply s (parsed a rest) = parsed (some a) rest
optional_reply s refused = parsed none s
optional_reply s failed = failed

-- `char::is_whitespace` and `char::is_digit(16)` of the standard library.
unfoldable pub is_whitespace : ℕ → Bool
is_whitespace c =
    leb 0x09 c && leb c 0x0d
    || c == 0x20
    || c == 0x85
    || c == 0xa0
    || c == 0x1680
    || leb 0x2000 c && leb c 0x200a
    || c == 0x2028
    || c == 0x2029
    || c == 0x202f
    || c == 0x205f
    || c == 0x3000

unfoldable pub is_hex_digit : ℕ → Bool
is_hex_digit c = leb b'0' c && leb c b'9' || leb b'a' c && leb c b'f' || leb b'A' c && leb c b'F'

-- One character that passes a test.
abbrev pub one : (ℕ → Bool) → List ℕ → Reply ℕ
one test [] = refused
one test (c ∷ s) = if test c then parsed c s else refused

-- The characters in front that pass a test, and the rest.
unfoldable pub span : (ℕ → Bool) → List ℕ → List ℕ × List ℕ
span test [] = ([], [])
span test (c ∷ s) = let r = span test s in if test c then (c ∷ r.0, r.1) else ([], c ∷ s)

abbrev pub some_of : List ℕ × List ℕ → Reply (List ℕ)
some_of ([], rest) = refused
some_of (c ∷ cs, rest) = parsed (c ∷ cs) rest

pub record Combine : Type 1 where
  pub Parser : Type 0 → Type 0
  pub run : {A : Type 0} → Parser A → List ℕ → Reply A
  pub satisfy : (ℕ → Bool) → Parser ℕ
  pub token : ℕ → Parser ℕ
  pub char : ℕ → Parser ℕ
  pub hex_digit : Parser ℕ
  pub spaces : Parser Unit
  pub many1 : Parser ℕ → Parser (List ℕ)
  pub or : {A : Type 0} → Parser A → Parser A → Parser A
  pub optional : {A : Type 0} → Parser A → Parser (Option A)
  pub map : {A B : Type 0} → (A → B) → Parser A → Parser B
  -- the function fails with an error that becomes an error of the parser
  pub and_then : {A B : Type 0} → Parser A → (A → Option B) → Parser B
  -- a tuple of parsers, two at a time
  pub pair : {A B : Type 0} → Parser A → Parser B → Parser (A × B)

-- `parser.easy_parse(input)`
abbrev pub easy_parse : (c : Combine) {A : Type 0} → c.Parser A → List ℕ → Option (A × List ℕ)
easy_parse c p s = value (c.run p s)

abbrev pub after : {A B : Type 0} → Option (A × List ℕ) → (A → List ℕ → Option B) → Option B
after none f = none
after (some (a, rest)) f = f a rest

pub record IsCombine (c : Combine) : Type 1 where
  pub run-satisfy : (test : ℕ → Bool) (s : List ℕ) → c.run (c.satisfy test) s ≡ one test s
  pub run-token : (t : ℕ) (s : List ℕ) → c.run (c.token t) s ≡ one (λ x. x == t) s
  pub run-char : (t : ℕ) (s : List ℕ) → c.run (c.char t) s ≡ one (λ x. x == t) s
  pub run-hex_digit : (s : List ℕ) → c.run c.hex_digit s ≡ one is_hex_digit s
  pub run-spaces : (s : List ℕ) → c.run c.spaces s ≡ parsed tt (span is_whitespace s).1
  -- of a parser of one character
  pub run-many1 :
      (p : c.Parser ℕ) (test : ℕ → Bool)
      → ((s : List ℕ) → c.run p s ≡ one test s)
      → (s : List ℕ) → c.run (c.many1 p) s ≡ some_of (span test s)
  pub run-or :
      {A : Type 0} (p q : c.Parser A) (s : List ℕ)
      → c.run (c.or p q) s ≡ or_reply (c.run p s) (c.run q s)
  pub run-optional :
      {A : Type 0} (p : c.Parser A) (s : List ℕ)
      → c.run (c.optional p) s ≡ optional_reply s (c.run p s)
  pub run-map :
      {A B : Type 0} (f : A → B) (p : c.Parser A) (s : List ℕ)
      → c.run (c.map f p) s ≡ map_reply f (c.run p s)
  -- whether an error comes before or after input was consumed is left open
  pub run-and_then :
      {A B : Type 0} (p : c.Parser A) (f : A → Option B) (s : List ℕ)
      → easy_parse c (c.and_then p f) s
        ≡ after (easy_parse c p s) (λ a rest. elim (f a) [ none ↦ none | some b ↦ some (b, rest) ])
  pub run-pair :
      {A B : Type 0} (p : c.Parser A) (q : c.Parser B) (s : List ℕ)
      → easy_parse c (c.pair p q) s
        ≡ after
            (easy_parse c p s)
            (λ a rest. after (easy_parse c q rest) (λ b rest'. some ((a, b), rest')))
