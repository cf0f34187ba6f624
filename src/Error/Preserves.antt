-- ===== src/Error/Preserves.antt =====
-- Calls of the system that preserve a property of its state, whether they succeed or fail.
use mmap_rs.Common.{Bool, true, false, if◌then◌else◌}
use mmap_rs.Error.{Result, ok, err, Exec, pure, raise, continue, convert, ◌>>=◌, ◌>>◌}
use mmap_rs.Error.Inversion.{convert-state}

pub record Preserves {ℓ} {S E A : Type ℓ} (P : S → Type ℓ) (m : Exec S E A) : Type ℓ where
  pub holds_after : (s : S) → P s → P (m s).1

module _ {ℓ} {S E A : Type ℓ} {P : S → Type ℓ} where
  pub pure-Preserves : (a : A) → Preserves P (pure {E = E} a)
  pure-Preserves a = record { holds_after = λ s h. h }

  pub raise-Preserves : (e : E) → Preserves P (raise {A = A} e)
  raise-Preserves e = record { holds_after = λ s h. h }

  pub if-Preserves :
      (b : Bool) (m n : Exec S E A)
      → Preserves P m
      → Preserves P n
      → Preserves P (if b then m else n)
  if-Preserves true m n km kn = km
  if-Preserves false m n km kn = kn

module _ {ℓ} {S E F A : Type ℓ} {P : S → Type ℓ} where
  pub convert-Preserves : (g : E → F) (m : Exec S E A) → Preserves P m → Preserves P (convert g m)
  convert-Preserves g m k = record {
    holds_after = λ s h. rw (convert-state g m s) (k.holds_after s h);
  }

module _ {ℓ} {S E A B : Type ℓ} {P : S → Type ℓ} where
  after_continue :
      (f : A → Exec S E B)
      → ((a : A) → Preserves P (f a))
      → (r : Result E A × S) → P r.1
      → P (continue f r).1
  after_continue f k (ok a, s) h = (k a).holds_after s h
  after_continue f k (err e, s) h = h

  pub >>=-Preserves :
      (m : Exec S E A) (f : A → Exec S E B)
      → Preserves P m
      → ((a : A) → Preserves P (f a))
      → Preserves P (m >>= f)
  >>=-Preserves m f km kf = record {
    holds_after = λ s h. after_continue f kf (m s) (km.holds_after s h);
  }

  pub >>-Preserves :
      (m : Exec S E A) (n : Exec S E B) → Preserves P m → Preserves P n → Preserves P (m >> n)
  >>-Preserves m n km kn = >>=-Preserves m (λ _. n) km (λ _. kn)

pub ruleset preserves_rules =
    (pure-Preserves, raise-Preserves, if-Preserves, convert-Preserves, >>-Preserves, >>=-Preserves)
