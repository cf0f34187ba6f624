-- ===== src/Areas/Platform.antt =====
-- `MemoryAreas` of src/areas.rs, over its `platform` module: one of those of src/os_impl.
use mmap_rs.Common.{
  ℕ, zero, suc, ◌≡◌, refl, ap, ◌∙◌, map_option, Option, none, some, [], ◌∷◌, collect,
}
use mmap_rs.Error.{Error, Result, ok, err, pure, continue}
use mmap_rs.Areas.{MemoryArea}

-- What src/areas.rs uses of its `platform` module.
pub record Platform : Type 1 where
  pub State : Type 0
  pub Inner : Type 0
  -- `none` is undefined behaviour
  pub open_inner : Option ℕ → State → Option (Result Error Inner × State)
  pub next_inner : Inner → Option (Result Error MemoryArea) × Inner

pub record MemoryAreas (p : Platform) : Type 0 where
  pub inner : p.Inner

module _ (p : Platform) where
  -- `MemoryAreas::open`
  unfoldable pub open_areas : Option ℕ → p.State → Option (Result Error (MemoryAreas p) × p.State)
  open_areas pid s =
      map_option (continue (λ inner. pure (record { inner = inner }))) (p.open_inner pid s)

  -- `MemoryAreas::next`
  unfoldable pub next : MemoryAreas p → Option (Result Error MemoryArea) × MemoryAreas p
  next areas = let (item, inner) = p.next_inner areas.inner in (item, record { inner = inner })

  -- A client of the wrapper gets what a client of the platform gets.
  pub collect-inner :
      (fuel : ℕ) (areas : MemoryAreas p)
      → collect next fuel areas ≡ collect p.next_inner fuel areas.inner
  unfolding next
  collect-inner zero areas = refl
  collect-inner (suc fuel) areas = λ i. elim (p.next_inner areas.inner).0 [
    | none ↦ []
    | some x ↦ x ∷ collect-inner fuel (next areas).1 i
  ]

  wrapped-eq-ok :
      (r : Option (Result Error p.Inner × p.State)) {areas : MemoryAreas p} {t : p.State}
      → map_option (continue (λ inner. pure (record { inner = inner }))) r ≡ some (ok areas, t)
      → r ≡ some (ok areas.inner, t)
  wrapped-eq-ok none h = cc
  wrapped-eq-ok (some (ok inner, s)) {areas} {t} h =
      let is : record { inner = inner } ≡ areas = cc in ap (λ n. some (ok n.inner, s)) is ∙ cc
  wrapped-eq-ok (some (err e, s)) h = cc

  pub open_areas-eq-ok :
      (pid : Option ℕ) (s : p.State) {areas : MemoryAreas p} {t : p.State}
      → open_areas pid s ≡ some (ok areas, t)
      → p.open_inner pid s ≡ some (ok areas.inner, t)
  unfolding open_areas
  open_areas-eq-ok pid s h = wrapped-eq-ok (p.open_inner pid s) h
