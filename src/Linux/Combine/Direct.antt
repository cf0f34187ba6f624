-- ===== src/Linux/Combine/Direct.antt =====
-- Parsers as functions, with the laws that are asked of `combine`.
use mmap_rs.Common.{
  ℕ, zero, suc, ◌≡◌, refl, ap, Bool, ◌==◌, Option, none, some, List, [], ◌∷◌, length, arith,
}
use mmap_rs.Linux.Combine.{
  Reply, parsed, refused, failed, map_reply, or_reply, optional_reply, value, is_whitespace,
  is_hex_digit, one, span, some_of, Combine, after, IsCombine,
}

-- The replies of `p` in a row, at most as many as the fuel.
abbrev repeat : ℕ → (List ℕ → Reply ℕ) → List ℕ → List ℕ × List ℕ
repeat zero p s = ([], s)
repeat (suc fuel) p s = elim (p s) [
  | parsed x rest ↦ let r = repeat fuel p rest in (x ∷ r.0, r.1)
  | refused ↦ ([], s)
  | failed ↦ ([], s)
]

abbrev checked : {A B : Type 0} → (A → Option B) → Reply A → Reply B
checked f (parsed a rest) = elim (f a) [ none ↦ failed | some b ↦ parsed b rest ]
checked f refused = refused
checked f failed = failed

-- The reply of the second parser, behind the value of the first.
abbrev behind : {A B : Type 0} → A → Reply B → Reply (A × B)
behind a (parsed b rest) = parsed (a, b) rest
behind a refused = failed
behind a failed = failed

abbrev in_a_row : {A B : Type 0} → Reply A → (List ℕ → Reply B) → Reply (A × B)
in_a_row (parsed a rest) q = behind a (q rest)
in_a_row refused q = refused
in_a_row failed q = failed

abbrev pub direct : Combine
direct = record {
  Parser = λ A. List ℕ → Reply A;
  run = λ p s. p s;
  satisfy = one;
  token = λ t. one (λ x. x == t);
  char = λ t. one (λ x. x == t);
  hex_digit = one is_hex_digit;
  spaces = λ s. parsed tt (span is_whitespace s).1;
  many1 = λ p s. some_of (repeat (length s) p s);
  or = λ p q s. or_reply (p s) (q s);
  optional = λ p s. optional_reply s (p s);
  map = λ f p s. map_reply f (p s);
  and_then = λ p f s. checked f (p s);
  pair = λ p q s. in_a_row (p s) q;
}

repeat-span :
    (p : List ℕ → Reply ℕ) (test : ℕ → Bool)
    → ((s : List ℕ) → p s ≡ one test s)
    → (s : List ℕ) → repeat (length s) p s ≡ span test s
unfolding span
repeat-span p test is [] = refl
repeat-span p test is (x ∷ s) = rw (is (x ∷ s)) (ground (arith, repeat-span p test is s))

checked-after :
    {A B : Type 0} (f : A → Option B) (r : Reply A)
    → value (checked f r)
      ≡ after (value r) (λ a rest. elim (f a) [ none ↦ none | some b ↦ some (b, rest) ])
checked-after f (parsed a rest) = ground arith
checked-after f refused = refl
checked-after f failed = refl

behind-after :
    {A B : Type 0} (a : A) (r : Reply B)
    → value (behind a r) ≡ after (value r) (λ b rest. some ((a, b), rest))
behind-after a (parsed b rest) = refl
behind-after a refused = refl
behind-after a failed = refl

in_a_row-after :
    {A B : Type 0} (r : Reply A) (q : List ℕ → Reply B)
    → value (in_a_row r q)
      ≡ after (value r) (λ a rest. after (value (q rest)) (λ b rest'. some ((a, b), rest')))
in_a_row-after (parsed a rest) q = behind-after a (q rest)
in_a_row-after refused q = refl
in_a_row-after failed q = refl

pub direct-IsCombine : IsCombine direct
direct-IsCombine = record {
  run-satisfy = λ test s. refl;
  run-token = λ t s. refl;
  run-char = λ t s. refl;
  run-hex_digit = λ s. refl;
  run-spaces = λ s. refl;
  run-many1 = λ p test is s. ap some_of (repeat-span p test is s);
  run-or = λ p q s. refl;
  run-optional = λ p s. refl;
  run-map = λ f p s. refl;
  run-and_then = λ p f s. checked-after f (p s);
  run-pair = λ p q s. in_a_row-after (p s) q;
}
