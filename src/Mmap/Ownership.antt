-- ===== src/Mmap/Ownership.antt =====
-- Who owns the mapping after a conversion of src/mmap.rs between the three mapping types.
use mmap_rs.Common.{◌≡◌, refl, subst}
use mmap_rs.Error.{Error, Result, ok, err, Exec, ◌>>◌}
use mmap_rs.Backend.{Backend}
use mmap_rs.Mmap.{retype}
use mmap_rs.Mmap.Handle.{
  Handle, inner, Conversion, to_none, to_read_only, to_exec, to_exec_no_flush, to_mut, to_exec_mut,
  as_handle, convert_to,
}

-- What each conversion asks of the backend: one method, or two in a row.
abbrev pub request : (b : Backend) → Conversion → b.Mapping → Exec b.State Error Unit
request b to_none m = b.make_none m
request b to_read_only m = b.make_read_only m
request b to_exec m = b.make_exec m >> b.flush_icache m
request b to_exec_no_flush m = b.make_exec m
request b to_mut m = b.make_mut m
request b to_exec_mut m = b.make_exec_mut m

module _ (b : Backend) (h : Handle b) where
  -- What a conversion returns for an answer of the backend: a new owner of the same mapping, or the
  -- old one with the error.
  abbrev pub Owns : Result Error Unit → Result (Handle b × Error) (Handle b) → Type 0
  Owns (ok _) (ok new) = inner b new ≡ inner b h
  Owns (err e) (err (old, e')) = (old ≡ h) × (e' ≡ e)
  Owns _ _ = ⊥

  abbrev pub Answers :
      Result Error Unit × b.State → Result (Handle b × Error) (Handle b) × b.State → Type 0
  Answers (answer, s) (result, t) = Owns answer result × (t ≡ s)

  retype-Answers :
      {U : Type 0} (wrap : U → Handle b) (new : U) (r : Result Error Unit × b.State)
      → inner b (wrap new) ≡ inner b h
      → Answers r (as_handle wrap (retype b (inner b) h new r))
  retype-Answers wrap new (ok _, s) same = (same, refl)
  retype-Answers wrap new (err e, s) same = ((refl, refl), refl)

  -- Each of the six conversions, over any backend and from any of the three types, succeeds
  -- exactly when the backend does what it asks, and then owns the same mapping; otherwise it
  -- gives back the value that it was called on, with the error of the backend. The state is the
  -- one that the backend leaves.
  pub convert_to-Answers :
      (c : Conversion) (s : b.State) → Answers (request b c (inner b h) s) (convert_to b c h s)
  unfolding convert_to
  convert_to-Answers to_none s = retype-Answers _ _ (b.make_none (inner b h) s) refl
  convert_to-Answers to_read_only s = retype-Answers _ _ (b.make_read_only (inner b h) s) refl
  convert_to-Answers to_exec s =
      retype-Answers _ _ ((b.make_exec (inner b h) >> b.flush_icache (inner b h)) s) refl
  convert_to-Answers to_exec_no_flush s = retype-Answers _ _ (b.make_exec (inner b h) s) refl
  convert_to-Answers to_mut s = retype-Answers _ _ (b.make_mut (inner b h) s) refl
  convert_to-Answers to_exec_mut s = retype-Answers _ _ (b.make_exec_mut (inner b h) s) refl

  answered-inner :
      (q : Result Error Unit × b.State) (h' : Handle b) (t : b.State)
      → Answers q (ok h', t)
      → inner b h' ≡ inner b h
  answered-inner (ok _, s) h' t (same, _) = same
  answered-inner (err e, s) h' t (none, _) = absurd none

  -- After a conversion that succeeds, the mapping is the same.
  pub convert_to-inner :
      (c : Conversion) (s : b.State) {h' : Handle b} {t : b.State}
      → convert_to b c h s ≡ (ok h', t)
      → inner b h' ≡ inner b h
  convert_to-inner c s {h' = h'} {t = t} e =
      answered-inner (request b c (inner b h) s) h' t
        (subst (Answers (request b c (inner b h) s)) e (convert_to-Answers c s))

  answered-old :
      (q : Result Error Unit × b.State) (old : Handle b) (e : Error) (t : b.State)
      → Answers q (err (old, e), t)
      → old ≡ h
  answered-old (ok _, s) old d t (none, _) = absurd none
  answered-old (err e, s) old d t ((same, _), _) = same

  -- A conversion that fails gives back the value that it was called on.
  pub convert_to-old :
      (c : Conversion) (s : b.State) {old : Handle b} {e : Error} {t : b.State}
      → convert_to b c h s ≡ (err (old, e), t)
      → old ≡ h
  convert_to-old c s {old = old} {e = e} {t = t} done =
      answered-old (request b c (inner b h) s) old e t
        (subst (Answers (request b c (inner b h) s)) done (convert_to-Answers c s))
