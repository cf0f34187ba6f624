-- ===== src/Common/Iterators.antt =====
-- The loop of a client over an iterator.
use Prim.Native.Nat.{ℕ, zero, suc}
use mathlib.Core.Path.{◌≡◌, ap}
use mathlib.Core.List.{List, [], ◌∷◌}
use mathlib.Core.Option.{Option, none, some}

module _ {S A : Type 0} (next : S → Option A × S) where
  -- What a client gets that calls `next` until it returns `None`, at most `fuel` times.
  abbrev pub collect : ℕ → S → List A
  collect zero s = []
  collect (suc fuel) s = let r = next s in elim r.0 [ none ↦ [] | some x ↦ x ∷ collect fuel r.1 ]

  pub collect-some :
      (fuel : ℕ) (s t : S) (x : A)
      → next s ≡ (some x, t)
      → collect (suc fuel) s ≡ x ∷ collect fuel t
  collect-some fuel s t x h = ap (λ r. elim r.0 [ none ↦ [] | some x ↦ x ∷ collect fuel r.1 ]) h

  pub collect-none : (fuel : ℕ) (s t : S) → next s ≡ (none, t) → collect (suc fuel) s ≡ []
  collect-none fuel s t h = ap (λ r. elim r.0 [ none ↦ [] | some x ↦ x ∷ collect fuel r.1 ]) h
