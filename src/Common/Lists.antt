-- ===== src/Common/Lists.antt =====
-- Lists measured and indexed by native numbers, predicates on their items, and literals as texts.
use Prim.Native.Nat.{ℕ, zero, suc, ◌+◌}
use Prim.Native.Char.{code}
use Prim.Native.String.{String}
use mathlib.Core.Path.{◌≡◌}
use mathlib.Core.List.{List, [], ◌∷◌, ◌++◌}
use mathlib.Core.Option.{Option, none, some}
use native.Mathlib.Omega.{arith}

-- The code points of a literal.
abbrev pub codes : String → List ℕ
codes String.[] = []
codes (String.◌∷◌ c s) = code c ∷ codes s

module _ {ℓ} {A : Type ℓ} where
  abbrev pub length : List A → ℕ
  length [] = 0
  length (x ∷ xs) = suc (length xs)

  abbrev pub get_elem? : List A → ℕ → Option A
  get_elem? [] i = none
  get_elem? (x ∷ xs) zero = some x
  get_elem? (x ∷ xs) (suc i) = get_elem? xs i

  pub length-append : (xs ys : List A) → length (xs ++ ys) ≡ length xs + length ys
  length-append [] ys = omega arith
  length-append (x ∷ xs) ys = omega (arith, length-append xs ys)

module _ {ℓ κ} {A : Type ℓ} (P : A → Type κ) where
  abbrev pub All : List A → Type κ
  All [] = Unit
  All (x ∷ xs) = P x × All xs

  pub All-append : (xs ys : List A) → All xs → All ys → All (xs ++ ys)
  All-append [] ys _ hy = hy
  All-append (x ∷ xs) ys (px, hx) hy = (px, All-append xs ys hx hy)

  pub All-middle : (xs : List A) (y : A) (ys : List A) → All (xs ++ y ∷ ys) → P y × All (xs ++ ys)
  All-middle [] y ys h = h
  All-middle (x ∷ xs) y ys (px, h) = let (py, rest) = All-middle xs y ys h in (py, (px, rest))

  pub All-insert : (xs : List A) (y : A) (ys : List A) → P y → All (xs ++ ys) → All (xs ++ y ∷ ys)
  All-insert [] y ys py h = (py, h)
  All-insert (x ∷ xs) y ys py (px, h) = (px, All-insert xs y ys py h)

module _ {ℓ κ ι μ} {A : Type ℓ} {P : A → Type κ} {Q : A → Type ι} {R : A → Type μ} where
  pub All-zip : ((x : A) → P x → Q x → R x) → (xs : List A) → All P xs → All Q xs → All R xs
  All-zip f [] _ _ = tt
  All-zip f (x ∷ xs) (px, hp) (qx, hq) = (f x px qx, All-zip f xs hp hq)

module _ {ℓ κ} {A : Type ℓ} {P Q : A → Type κ} where
  pub All-map : ((x : A) → P x → Q x) → (xs : List A) → All P xs → All Q xs
  All-map f [] _ = tt
  All-map f (x ∷ xs) (px, h) = (f x px, All-map f xs h)

-- Every two items at different places are related.
module _ {ℓ κ} {A : Type ℓ} (R : A → A → Type κ) where
  abbrev pub Pairwise : List A → Type κ
  Pairwise [] = Unit
  Pairwise (x ∷ xs) = All (R x) xs × Pairwise xs

  pub Pairwise-middle :
      ((x y : A) → R x y → R y x)
      → (xs : List A) (y : A) (ys : List A) → Pairwise (xs ++ y ∷ ys)
      → All (R y) (xs ++ ys) × Pairwise (xs ++ ys)
  Pairwise-middle flip [] y ys h = h
  Pairwise-middle flip (x ∷ xs) y ys (hx, h) =
      let (xy, x_rest) = All-middle (R x) xs y ys hx in
      let (y_rest, rest) = Pairwise-middle flip xs y ys h in ((flip x y xy, y_rest), (x_rest, rest))

  pub Pairwise-insert :
      ((x y : A) → R x y → R y x)
      → (xs : List A) (y : A) (ys : List A) → All (R y) (xs ++ ys)
      → Pairwise (xs ++ ys)
      → Pairwise (xs ++ y ∷ ys)
  Pairwise-insert flip [] y ys hy h = (hy, h)
  Pairwise-insert flip (x ∷ xs) y ys (yx, hy) (hx, h) =
      (All-insert (R x) xs y ys (flip y x yx) hx, Pairwise-insert flip xs y ys hy h)
