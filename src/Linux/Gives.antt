-- ===== src/Linux/Gives.antt =====
-- What the parsers of src/os_impl/linux.rs give on a text that begins with what they look for.
use mmap_rs.Common.{
  ℕ, ◌^◌, ◌≡◌, ◌≢◌, refl, ◌∙◌, ap, subst, append-nil, Bool, true, false, not, ◌&&◌, Option, none,
  some, List, [], ◌∷◌, ◌++◌, arith, ltb, ◌==◌, if◌then◌else◌, All,
}
use mmap_rs.Linux.Combine.{
  Reply, parsed, refused, failed, value, map_reply, optional_reply, one, span, is_whitespace,
  is_hex_digit, Combine, easy_parse, after, IsCombine,
}
use mmap_rs.Linux.Number.{from_str_radix_16}
use mmap_rs.Linux.Number.Value.{hex_value, from_str_radix_16-fitting}
use mmap_rs.Bitflags.{Bitflags}
use mmap_rs.Areas.{PathBuf}
use mmap_rs.Linux.Region.{hex_digit1, hex_number, either, path}

-- A value and the rest of the input if `fits`, and a failure if not.
abbrev pub keep_if : {A : Type 0} → Bool → A → List ℕ → Option (A × List ℕ)
keep_if fits a rest = if fits then some (a, rest) else none

-- The text does not go on with a character that passes the test.
abbrev pub Stops : (ℕ → Bool) → List ℕ → Type 0
Stops test [] = Unit
Stops test (c ∷ s) = test c ≡ false

abbrev pub Passes : (ℕ → Bool) → List ℕ → Type 0
Passes test = All (λ c. test c ≡ true)

pub span-append :
    (test : ℕ → Bool) (t rest : List ℕ)
    → Passes test t
    → Stops test rest
    → span test (t ++ rest) ≡ (t, rest)
unfolding span
span-append test [] [] h stop = refl
span-append test [] (c ∷ rest) h stop = rw stop
span-append test (c ∷ t) rest (hc, ht) stop = rw (hc, span-append test t rest ht stop)

abbrev pub not_newline : ℕ → Bool
not_newline x = not (x == b'\n')

-- The path behind the fields of a line.
abbrev pub path_of : List ℕ → Option PathBuf
path_of [] = none
path_of (x ∷ t) = some (x ∷ t)

-- `easy_parse` of `p` on `s` returns `a` and leaves `rest` if `fits`, and fails if not.
pub record Gives {A : Type 0} (c : Combine) (p : c.Parser A) (s : List ℕ) (fits : Bool) (a : A)
    (rest : List ℕ) : Type 0 where
  pub result : easy_parse c p s ≡ keep_if fits a rest

value-map_reply :
    {A B : Type 0} (f : A → B) (r : Reply A) (b : Bool) (a : A) (rest : List ℕ)
    → value r ≡ keep_if b a rest
    → value (map_reply f r) ≡ keep_if b (f a) rest
value-map_reply f (parsed x s) true a rest h = ground arith
value-map_reply f (parsed x s) false a rest h = cc
value-map_reply f refused true a rest h = cc
value-map_reply f refused false a rest h = refl
value-map_reply f failed true a rest h = cc
value-map_reply f failed false a rest h = refl

module _ (c : Combine) (l : IsCombine c) where
  pair-result :
      {A B : Type 0} (p : c.Parser A) (q : c.Parser B) (s : List ℕ) (x y : Bool) (a : A) (b : B)
      (rest rest' : List ℕ)
      → easy_parse c p s ≡ keep_if x a rest
      → easy_parse c q rest ≡ keep_if y b rest'
      → easy_parse c (c.pair p q) s ≡ keep_if (x && y) (a, b) rest'
  pair-result p q s true true a b rest rest' hp hq =
      l.run-pair p q s ∙ rw (hp, after) (rw (hq, after))
  pair-result p q s true false a b rest rest' hp hq =
      l.run-pair p q s ∙ rw (hp, after) (rw (hq, after))
  pair-result p q s false y a b rest rest' hp hq = l.run-pair p q s ∙ rw (hp, after)

  pub pair-Gives :
      {A B : Type 0} {p : c.Parser A} {q : c.Parser B} {s : List ℕ} {x y : Bool} {a : A} {b : B}
      {rest rest' : List ℕ}
      → Gives c p s x a rest
      → Gives c q rest y b rest'
      → Gives c (c.pair p q) s (x && y) (a, b) rest'
  pair-Gives {p = p} {q = q} {s = s} {x = x} {y = y} {a = a} {b = b} {rest = rest} {rest' = rest'}
        hp hq =
      record { result = pair-result p q s x y a b rest rest' hp.result hq.result }

  pub map-Gives :
      {A B : Type 0} {p : c.Parser A} {s : List ℕ} {x : Bool} {a : A} {rest : List ℕ} (f : A → B)
      → Gives c p s x a rest
      → Gives c (c.map f p) s x (f a) rest
  map-Gives {p = p} {s = s} {x = x} {a = a} {rest = rest} f h = record {
    result = rw l.run-map (value-map_reply f (c.run p s) x a rest h.result);
  }

  pub token-Gives : (t : ℕ) (rest : List ℕ) → Gives c (c.token t) (t ∷ rest) true t rest
  token-Gives t rest = record { result = rw l.run-token (ground arith) }

  pub spaces-Gives :
      (t rest : List ℕ)
      → Passes is_whitespace t
      → Stops is_whitespace rest
      → Gives c c.spaces (t ++ rest) true tt rest
  spaces-Gives t rest h stop = record {
    result = rw (l.run-spaces, span-append is_whitespace t rest h stop);
  }

  run-many1 :
      (p : c.Parser ℕ) (test : ℕ → Bool)
      → ((s : List ℕ) → c.run p s ≡ one test s)
      → (t rest : List ℕ) → t ≢ []
      → Passes test t
      → Stops test rest
      → c.run (c.many1 p) (t ++ rest) ≡ parsed t rest
  run-many1 p test is [] rest ne h stop = absurd (ne refl)
  run-many1 p test is (x ∷ t) rest ne h stop =
      l.run-many1 p test is _ ∙ rw (span-append test (x ∷ t) rest h stop)

  pub either-Gives :
      {A : Type 0} (b : Bitflags) (width x y : ℕ) (a d : A) (pick : Bool) (rest : List ℕ)
      → (y == x) ≡ false
      → Gives c
          (either b c width x a y d)
          ((if pick then x else y) ∷ rest)
          true
          (if pick then a else d)
          rest
  either-Gives b width x y a d true rest ne = record {
    result = rw (l.run-or, l.run-map, l.run-char) (ground arith);
  }
  either-Gives b width x y a d false rest ne = record {
    result = rw (l.run-or, l.run-map, l.run-map, l.run-char, l.run-char) (ground arith);
  }

  module _ (b : Bitflags) (width : ℕ) where
    run-path : (t : List ℕ) → t ≢ [] → Passes not_newline t → c.run (path b c width) t ≡ parsed t []
    unfolding path
    run-path t ne h =
        let all : c.run (c.many1 (c.satisfy not_newline)) t ≡ parsed t [] =
          subst (λ s. c.run (c.many1 (c.satisfy not_newline)) s ≡ parsed t []) (append-nil t)
            (run-many1 (c.satisfy not_newline) not_newline (l.run-satisfy not_newline) t [] ne h
              tt) in
        l.run-map (λ s. s) (c.many1 (c.satisfy not_newline)) t ∙ ap (map_reply (λ s. s)) all

    -- The rest of the line is the path, if there is a rest.
    pub optional_path-Gives :
        (t : List ℕ)
        → Passes not_newline t
        → Gives c (c.optional (path b c width)) t true (path_of t) []
    unfolding path span
    optional_path-Gives [] h =
        let none_left : c.run (c.many1 (c.satisfy not_newline)) [] ≡ refused =
          l.run-many1 (c.satisfy not_newline) not_newline (l.run-satisfy not_newline) [] in
        record {
          result = ap value (
              l.run-optional (path b c width) []
              ∙ ap (optional_reply []) (
                  l.run-map (λ s. s) (c.many1 (c.satisfy not_newline)) []
                  ∙ ap (map_reply (λ s. s)) none_left));
        }
    optional_path-Gives (x ∷ t) h = record {
      result = ap value (
          l.run-optional (path b c width) (x ∷ t)
          ∙ ap (optional_reply (x ∷ t)) (run-path (x ∷ t) (λ e. cc) h));
    }

    pub hex_digit1-Gives :
        (t rest : List ℕ)
        → t ≢ []
        → Passes is_hex_digit t
        → Stops is_hex_digit rest
        → Gives c (hex_digit1 b c width) (t ++ rest) true t rest
    unfolding hex_digit1
    hex_digit1-Gives t rest ne h stop = record {
      result = rw (run-many1 c.hex_digit is_hex_digit l.run-hex_digit t rest ne h stop);
    }

    -- A number of `w` bits is given if the digits fit.
    pub hex_number-Gives :
        (w : ℕ) (t rest : List ℕ)
        → t ≢ []
        → Passes is_hex_digit t
        → Stops is_hex_digit rest
        → Gives c
            (hex_number b c width w)
            (t ++ rest)
            (ltb (hex_value 0 t) (2 ^ w))
            (hex_value 0 t)
            rest
    unfolding hex_number
    hex_number-Gives w t rest ne h stop = record {
      result =
          l.run-and_then (hex_digit1 b c width) (from_str_radix_16 w) (t ++ rest)
          ∙ rw ((hex_digit1-Gives t rest ne h stop).result, after)
              (rw (from_str_radix_16-fitting w t ne h) (ground arith));
    }
