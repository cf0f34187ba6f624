-- ===== src/Windows/Areas/Chain.antt =====
-- The regions of a process from an address to the end of its memory, and what the iterator of
-- src/os_impl/windows.rs returns over them.
use mmap_rs.Common.{
  ℕ, zero, suc, ◌+◌, ◌^◌, ◌<◌, ◌≡◌, refl, arith, false, Bool-cases, inl, inr, Option, none, some,
  List, [], ◌∷◌, length, if◌then◌else◌,
}
use mmap_rs.Error.{Error, Result, ok}
use mmap_rs.Areas.{MemoryArea}
use mmap_rs.Windows.Areas.{Info, Process, area_of, is_committed, next}
use mmap_rs.Windows.Areas.Regions.{IsProcess, moved}

module _ (p : Process) where
  -- The regions from the address `a` on, each behind the one before.
  abbrev pub Chain : ℕ → List Info → Type 0
  Chain a [] = p.virtual_query a ≡ none
  Chain a (info ∷ infos) = (p.virtual_query a ≡ some info) × Chain (a + info.region_size) infos

  -- The areas of those that are committed.
  unfoldable pub committed : ℕ → List Info → List (Result Error MemoryArea)
  unfolding area_of
  committed a [] = []
  committed a (info ∷ infos) =
      let rest = committed (a + info.region_size) infos in
      if is_committed p info then ok (area_of p a info) ∷ rest else rest

module _ (p : Process) (k : IsProcess p) where
  -- Fewer regions than addresses.
  pub Chain-length :
      (a : ℕ) (infos : List Info)
      → a < 2 ^ p.width
      → Chain p a infos
      → a + length infos < 2 ^ p.width
  Chain-length a [] fits chain = omega (arith, fits)
  Chain-length a (info ∷ infos) fits (is, chain) =
      omega (arith, k.sized a is, Chain-length (a + info.region_size) infos (k.inside a is) chain)

  -- What `next` returns: the end of the committed regions, or the first of them and the rest.
  pub data Takes (a : ℕ) (infos : List Info)
      : Option (Option (Result Error MemoryArea) × ℕ) → Type 0 where
    ends : {b : ℕ} → committed p a infos ≡ [] → Takes a infos (some (none, b))
    takes :
        {item : Result Error MemoryArea} {b : ℕ} (rest : List Info)
        → Chain p b rest
        → length rest < length infos
        → committed p a infos ≡ item ∷ committed p b rest
        → Takes a infos (some (some item, b))

  -- A region that is not committed is passed over.
  passes :
      (a : ℕ) (info : Info) (infos : List Info) {r : Option (Option (Result Error MemoryArea) × ℕ)}
      → is_committed p info ≡ false
      → Takes (a + info.region_size) infos r
      → Takes a (info ∷ infos) r
  unfolding committed
  passes a info infos free (ends none_left) = ends (rw free none_left)
  passes a info infos free (takes rest chain shorter first) =
      takes rest chain (omega (arith, shorter)) (rw free first)

  pub next-Takes :
      (fuel a : ℕ) (infos : List Info)
      → length infos < fuel
      → Chain p a infos
      → Takes a infos (next p fuel a)
  unfolding next committed
  next-Takes zero a infos more chain = absurd (omega (arith, more))
  next-Takes (suc fuel) a [] more chain = rw chain (ends refl)
  next-Takes (suc fuel) a (info ∷ infos) more (is, chain) =
      elim (Bool-cases (is_committed p info)) [
        | inl here ↦ rw (is, here, moved p k a is) (takes infos chain (omega arith) (rw here refl))
        | inr free ↦
            rw (is, free, moved p k a is)
              (passes a info infos free
                (next-Takes fuel (a + info.region_size) infos (omega (arith, more)) chain))
      ]
