-- ===== src/FreeBsd/Open/Listed.antt =====
-- The memory areas that a client of src/areas.rs lists over src/os_impl/freebsd.rs.
use mmap_rs.Common.{ℕ, ℤ, ◌<◌, ◌≡◌, Option, none, some, List, map, length, get_elem?, collect, ◌≢◌}
use mmap_rs.Error.{ok}
use mmap_rs.Bitflags.{Bitflags}
use mmap_rs.Areas.Platform
use mmap_rs.Areas.Platform.{MemoryAreas, open_areas}
use mmap_rs.FreeBsd.{Entry, item}
use mmap_rs.FreeBsd.Open.{Libc, freebsd}

-- What the code relies on of the C library: `kinfo_getvmmap` returns an array of the entries of a
-- process, or null if it cannot read them; and `free` takes the array back.
pub record IsLibc (l : Libc) : Type 0 where
  -- the entries of a process, and how many arrays are allocated
  pub readable : l.State → ℤ → Option (List Entry)
  pub held : l.State → ℕ
  pub kinfo-none :
      (pid : ℤ) (s : l.State) → readable s pid ≡ none → (l.kinfo_getvmmap pid s).0.0 ≡ 0
  pub kinfo-some :
      (pid : ℤ) (s : l.State) (es : List Entry) {entries count : ℕ} {t : l.State}
      → readable s pid ≡ some es
      → l.kinfo_getvmmap pid s ≡ ((entries, count), t)
      → (entries ≢ 0)
        × (count ≡ length es)
        × ((i : ℕ) (e : Entry) → get_elem? es i ≡ some e → l.load t entries i ≡ e)
  pub free-kinfo :
      (pid : ℤ) (s : l.State) {entries count : ℕ} {t : l.State}
      → l.kinfo_getvmmap pid s ≡ ((entries, count), t)
      → held (l.free entries t) ≡ held s

module _ (l : Libc) (k : IsLibc l) (b : Bitflags) (width : ℕ) where
  -- The opened areas hold these entries, and no array is left.
  pub record ListsAll (pid : Option ℕ) (s : l.State) (es : List Entry) : Type 0 where
    pub areas : MemoryAreas (freebsd l b width)
    pub state : l.State
    pub opened : open_areas (freebsd l b width) pid s ≡ some (ok areas, state)
    pub freed : k.held state ≡ k.held s
    pub listed :
        (fuel : ℕ)
        → length es < fuel
        → collect (Platform.next (freebsd l b width)) fuel areas ≡ map (item b width) es

  -- What opening the areas of a process does, by the entries that can be read of it.
  abbrev pub Opens : Option ℕ → l.State → Option (List Entry) → Type 0
  Opens pid s none = open_areas (freebsd l b width) pid s ≡ none
  Opens pid s (some es) = ListsAll pid s es
