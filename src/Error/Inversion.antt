-- ===== src/Error/Inversion.antt =====
-- What a call that returned a value did on the way.
use mmap_rs.Common.{◌≡◌, refl, ◌⊎◌, inl, inr}
use mmap_rs.Error.{Result, ok, err, Exec, pure, continue, convert_result, convert, ◌>>=◌, ◌>>◌}

module _ {ℓ} {S E A B : Type ℓ} where
  continue-eq-ok :
      (f : A → Exec S E B) (r : Result E A × S) {b : B} {t : S}
      → continue f r ≡ (ok b, t)
      → (a : A) × (s : S) × (r ≡ (ok a, s)) × (f a s ≡ (ok b, t))
  continue-eq-ok f (ok a, s) h = (a, s, refl, h)
  continue-eq-ok f (err e, s) h = cc

  -- A chain that returns has run its first call to a value, and went on from there.
  pub >>=-eq-ok :
      (m : Exec S E A) (f : A → Exec S E B) (s : S) {b : B} {t : S}
      → (m >>= f) s ≡ (ok b, t)
      → (a : A) × (s1 : S) × (m s ≡ (ok a, s1)) × (f a s1 ≡ (ok b, t))
  >>=-eq-ok m f s h = continue-eq-ok f (m s) h

-- The first call failed, or it returned and what follows failed.
module _ {ℓ} {S E A B : Type ℓ} where
  continue-eq-err :
      (f : A → Exec S E B) (r : Result E A × S) {e : E} {t : S}
      → continue f r ≡ (err e, t)
      → (r ≡ (err e, t)) ⊎ ((a : A) × (s : S) × (r ≡ (ok a, s)) × (f a s ≡ (err e, t)))
  continue-eq-err f (ok a, s) h = inr (a, s, refl, h)
  continue-eq-err f (err e, s) h = inl cc

  pub >>=-eq-err :
      (m : Exec S E A) (f : A → Exec S E B) (s : S) {e : E} {t : S}
      → (m >>= f) s ≡ (err e, t)
      → (m s ≡ (err e, t)) ⊎ ((a : A) × (s1 : S) × (m s ≡ (ok a, s1)) × (f a s1 ≡ (err e, t)))
  >>=-eq-err m f s h = continue-eq-err f (m s) h

module _ {ℓ} {S E A B : Type ℓ} where
  continue-pure-eq-ok :
      (b : B) (r : Result E A × S) {c : B} {t : S}
      → continue (λ _. pure b) r ≡ (ok c, t)
      → (a : A) × (r ≡ (ok a, t)) × (c ≡ b)
  continue-pure-eq-ok b (ok a, s) h = (a, cc, cc)
  continue-pure-eq-ok b (err e, s) h = cc

  -- A call before the final value has changed the state last.
  pub >>-pure-eq-ok :
      (m : Exec S E A) (b : B) (s : S) {c : B} {t : S}
      → (m >> pure b) s ≡ (ok c, t)
      → (a : A) × (m s ≡ (ok a, t)) × (c ≡ b)
  >>-pure-eq-ok m b s h = continue-pure-eq-ok b (m s) h

module _ {ℓ} {S E F A : Type ℓ} where
  convert_result-eq-err :
      (g : E → F) (r : Result E A × S) {e : F} {t : S}
      → convert_result g r ≡ (err e, t)
      → (d : E) × (r ≡ (err d, t)) × (e ≡ g d)
  convert_result-eq-err g (ok a, s) h = cc
  convert_result-eq-err g (err d, s) h = (d, cc, cc)

  pub convert-eq-err :
      (g : E → F) (m : Exec S E A) (s : S) {e : F} {t : S}
      → convert g m s ≡ (err e, t)
      → (d : E) × (m s ≡ (err d, t)) × (e ≡ g d)
  convert-eq-err g m s h = convert_result-eq-err g (m s) h

  convert_result-eq-ok :
      (g : E → F) (r : Result E A × S) {a : A} {t : S}
      → convert_result g r ≡ (ok a, t)
      → r ≡ (ok a, t)
  convert_result-eq-ok g (ok a, s) h = cc
  convert_result-eq-ok g (err e, s) h = cc

  convert_result-state : (g : E → F) (r : Result E A × S) → (convert_result g r).1 ≡ r.1
  convert_result-state g (ok a, s) = refl
  convert_result-state g (err e, s) = refl

  pub convert-eq-ok :
      (g : E → F) (m : Exec S E A) (s : S) {a : A} {t : S}
      → convert g m s ≡ (ok a, t)
      → m s ≡ (ok a, t)
  convert-eq-ok g m s h = convert_result-eq-ok g (m s) h

  pub convert-state : (g : E → F) (m : Exec S E A) (s : S) → (convert g m s).1 ≡ (m s).1
  convert-state g m s = convert_result-state g (m s)
