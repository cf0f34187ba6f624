-- ===== src/Windows/Areas/Open/Listed.antt =====
-- The memory areas that a client of src/areas.rs lists over src/os_impl/windows.rs.
use native.Mathlib.Nat.{one-le-pow}
use mmap_rs.Common.{
  ℕ, zero, suc, ◌+◌, ◌^◌, ◌<◌, ◌≡◌, ◌≢◌, some-injective, refl, ap, sym, ◌∙◌, arith, Option, none,
  some, List, ◌∷◌, length, collect, collect-some, collect-none,
}
use mmap_rs.Error.{Error, Result, ok}
use mmap_rs.Error.Inversion.{>>=-eq-ok}
use mmap_rs.Areas.{MemoryArea}
use mmap_rs.Areas.Platform
use mmap_rs.Areas.Platform.{open_areas, open_areas-eq-ok, collect-inner}
use mmap_rs.Windows.Areas.{Info, next}
use mmap_rs.Windows.Areas.Regions.{next-ends}
use mmap_rs.Windows.Areas.Chain.{Chain, committed, Takes, ends, takes, next-Takes, Chain-length}
use mmap_rs.Windows.Areas.Open.{
  MemoryAreas, System, handle_of, process_of, open_handle, HasRegions, ended, next_area,
  windows_areas,
}

ended-some : {A : Type 0} (r : Option A) (ne : r ≢ none) (a : A) → r ≡ some a → ended r ne ≡ a
ended-some none ne a is = absurd (ne refl)
ended-some (some b) ne a is = some-injective b a is

module _ (y : System) (regions : HasRegions y) (h : ℕ) where
  -- `next` of the iterator, where its loop ends.
  stepped :
      (a b : ℕ) (item : Option (Result Error MemoryArea))
      → next (process_of y h) (suc (2 ^ y.width)) a ≡ some (item, b)
      → next_area y regions (record { handle = h; address = a })
        ≡ (item, record { handle = h; address = b })
  unfolding next_area process_of
  stepped a b item is =
      ap (λ (r : Option (Result Error MemoryArea) × ℕ). (r.0, record { handle = h; address = r.1 }))
        (ended-some (next (process_of y h) (suc (2 ^ y.width)) a)
          (next-ends (process_of y h) (regions h) a) (item, b) is)

  -- One call of `next`, given what the later calls return.
  one_call :
      (fuel a : ℕ) (infos : List Info) (r : Option (Option (Result Error MemoryArea) × ℕ))
      → next (process_of y h) (suc (2 ^ y.width)) a ≡ r
      → Takes (process_of y h) (regions h) a infos r
      → length infos < suc fuel
      → ((b : ℕ) (rest : List Info)
          → length rest < length infos
          → length rest < fuel
          → Chain (process_of y h) b rest
          → collect (next_area y regions) fuel (record { handle = h; address = b })
            ≡ committed (process_of y h) b rest)
      → collect (next_area y regions) (suc fuel) (record { handle = h; address = a })
        ≡ committed (process_of y h) a infos
  one_call fuel a infos _ is (ends {b} none_left) more later =
      collect-none (next_area y regions) fuel _ (record { handle = h; address = b })
        (stepped a b none is)
      ∙ sym none_left
  one_call fuel a infos _ is (takes {item} {b} rest chain shorter first) more later =
      collect-some (next_area y regions) fuel _ (record { handle = h; address = b }) item
        (stepped a b (some item) is)
      ∙ ap (λ items. item ∷ items) (later b rest shorter (omega (arith, shorter, more)) chain)
      ∙ sym first

  collect-committed :
      (fuel a : ℕ) (infos : List Info)
      → length infos < fuel
      → length infos < 2 ^ y.width
      → Chain (process_of y h) a infos
      → collect (next_area y regions) fuel (record { handle = h; address = a })
        ≡ committed (process_of y h) a infos
  collect-committed zero a infos more bounded chain = absurd (omega (arith, more))
  collect-committed (suc fuel) a infos more bounded chain =
      one_call fuel a infos (next (process_of y h) (suc (2 ^ y.width)) a) refl
        (next-Takes (process_of y h) (regions h) (suc (2 ^ y.width)) a infos
          (omega (arith, bounded)) chain)
        more
        λ b rest shorter fewer rest_chain.
          collect-committed fuel b rest fewer (omega (arith, shorter, bounded)) rest_chain

module _ (y : System) (regions : HasRegions y) where
  opened-start :
      (pid : Option ℕ) (s : y.State) {areas : MemoryAreas} {t : y.State}
      → open_handle y pid s ≡ (ok areas, t)
      → record { handle = areas.handle; address = 0 } ≡ areas
  unfolding open_handle
  opened-start pid s h = let (handle, s1, found, e) = >>=-eq-ok (handle_of y pid) _ s h in cc

  -- Where every region has a size and ends inside the address space: after `MemoryAreas::open`
  -- on Windows has succeeded, for a process with a chain of regions from 0 to the end of its
  -- memory, the loop of `next` ends from every address, within one turn more than there are
  -- addresses, and more calls than there are regions see the areas of the committed regions,
  -- all of them in order, and then the end.
  pub open_areas-committed :
      (pid : Option ℕ) (s : y.State) {areas : Platform.MemoryAreas (windows_areas y regions)}
      {t : y.State} (infos : List Info)
      → open_areas (windows_areas y regions) pid s ≡ some (ok areas, t)
      → Chain (process_of y areas.inner.handle) 0 infos
      → ((a : ℕ) → next (process_of y areas.inner.handle) (suc (2 ^ y.width)) a ≢ none)
        × ((fuel : ℕ)
            → length infos < fuel
            → collect (Platform.next (windows_areas y regions)) fuel areas
              ≡ committed (process_of y areas.inner.handle) 0 infos)
  unfolding process_of
  open_areas-committed pid s {areas} infos opened chain =
      let h = areas.inner.handle in
      let start =
        opened-start pid s
          (some-injective _ _ (open_areas-eq-ok (windows_areas y regions) pid s opened)) in
      let bounded : 0 + length infos < 2 ^ y.width =
        Chain-length (process_of y h) (regions h) 0 infos (one-le-pow y.width 2 (omega arith))
          chain in
      (
        next-ends (process_of y h) (regions h),
        λ fuel more.
            collect-inner (windows_areas y regions) fuel areas
            ∙ ap (collect (next_area y regions) fuel) (sym start)
            ∙ collect-committed y regions h fuel 0 infos more (omega (arith, bounded)) chain,
      )
