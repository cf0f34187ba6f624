-- ===== src/Programs/ListAreas/Prints.antt =====
-- Which rows examples/areas.rs prints.
use mmap_rs.Common.{
  ℕ, zero, suc, ◌<◌, ◌≡◌, refl, ap, sym, ◌∙◌, Option, none, some, List, [], ◌∷◌, arith, length,
  collect, collect-some, collect-none, map_option,
}
use mmap_rs.Error.{Error, Result, ok, err}
use mmap_rs.Bitflags.{Bitflags}
use mmap_rs.Areas.{MemoryArea}
use mmap_rs.Areas.Platform.{Platform, MemoryAreas, next}
use mmap_rs.Programs.ListAreas.{row, Output, print, turn, print_all}

-- A row for each area up to the first error, which ends the program.
unfoldable pub printed : Bitflags → ℕ → List (Result Error MemoryArea) → Output
unfolding row
printed b width [] = ([], ok tt)
printed b width (ok area ∷ items) = print (row b width area) (printed b width items)
printed b width (err e ∷ items) = ([], err e)

module _ (p : Platform) (b : Bitflags) (width : ℕ) where
  -- One turn, given what the later turns print.
  one_turn :
      (fuel : ℕ) (maps rest : MemoryAreas p) (item : Option (Result Error MemoryArea))
      → next p maps ≡ (item, rest)
      → (length (collect (next p) fuel rest) < fuel
          → print_all p b width fuel rest ≡ some (printed b width (collect (next p) fuel rest)))
      → length (collect (next p) (suc fuel) maps) < suc fuel
      → print_all p b width (suc fuel) maps
        ≡ some (printed b width (collect (next p) (suc fuel) maps))
  unfolding print_all printed
  one_turn fuel maps rest none is ih short =
      ap (turn p b width (print_all p b width fuel)) is
      ∙ ap (λ items. some (printed b width items)) (sym (collect-none (next p) fuel maps rest is))
  one_turn fuel maps rest (some (err e)) is ih short =
      ap (turn p b width (print_all p b width fuel)) is
      ∙ ap (λ items. some (printed b width items))
          (sym (collect-some (next p) fuel maps rest (err e) is))
  one_turn fuel maps rest (some (ok area)) is ih short =
      let all = collect-some (next p) fuel maps rest (ok area) is in
      ap (turn p b width (print_all p b width fuel)) is
      ∙ ap (map_option (print (row b width area))) (ih (omega (arith, short, ap length all)))
      ∙ ap (λ items. some (printed b width items)) (sym all)

  pub print_all-printed :
      (fuel : ℕ) (maps : MemoryAreas p)
      → length (collect (next p) fuel maps) < fuel
      → print_all p b width fuel maps ≡ some (printed b width (collect (next p) fuel maps))
  print_all-printed zero maps short = absurd (omega (arith, short))
  print_all-printed (suc fuel) maps short =
      one_turn fuel maps (next p maps).1 (next p maps).0 refl
        (print_all-printed fuel (next p maps).1) short
