-- ===== src/Programs/ListAreas/OnLinux.antt =====
-- What examples/areas.rs prints over src/os_impl/linux.rs.
use mmap_rs.Common.{
  ℕ, ◌<◌, ◌≡◌, refl, ap, ◌∙◌, none, some, List, [], ◌∷◌, map, arith, length, All, map_option,
}
use mmap_rs.Error.{Result, ok}
use mmap_rs.Bitflags.{Bitflags}
use mmap_rs.Linux.Combine.{Combine, IsCombine}
use mmap_rs.Linux.Line.{Line}
use mmap_rs.Linux.Line.Reads.{Readable, line_of, item_of}
use mmap_rs.Linux.Open.{Files, maps_path, linux}
use mmap_rs.Linux.Open.Listed.{open_areas-Lists}
use mmap_rs.Programs.ListAreas.{with_areas, main}
use mmap_rs.Programs.ListAreas.Prints.{printed, print_all-printed}

length-map : {A B : Type 0} (f : A → B) (xs : List A) → length (map f xs) ≡ length xs
length-map f [] = refl
length-map f (x ∷ xs) = omega (arith, length-map f xs)

module _ (f : Files) (b : Bitflags) (c : Combine) (k : IsCombine c) (width : ℕ) where
  -- Where the parsers of `combine` obey their laws: if /proc/self/maps can be opened, and holds
  -- lines as the kernel writes them whose numbers all fit, some of which may fail to be read,
  -- then examples/areas.rs ends, more turns of its loop than there are lines being enough: it
  -- prints a row for the area of each line in order, up to the first error, which it returns,
  -- or to the end.
  pub main-printed :
      (fuel : ℕ) (s : f.State) {file : f.File} {t : f.State} (rs : List (Result ℕ Line))
      → f.open_file (maps_path none) s ≡ (ok file, t)
      → f.lines file ≡ map (line_of b c k width) rs
      → All (Readable b c k width) rs
      → length rs < fuel
      → map_option (λ r. r.0) (main (linux f b c width) b width fuel s)
        ≡ some (some (printed b width (map (item_of b c k width) rs)))
  unfolding main
  main-printed fuel s rs found written readable more =
      let l = open_areas-Lists f b c k width none s rs found written readable in
      let all = l.listed fuel more in
      ap (λ r. map_option (λ q. q.0) (map_option (with_areas (linux f b c width) b width fuel) r))
        l.opened
      ∙ ap some (
          print_all-printed (linux f b c width) b width fuel l.areas
            (omega (arith, more, ap length all, length-map (item_of b c k width) rs)))
      ∙ ap (λ items. some (some (printed b width items))) all
