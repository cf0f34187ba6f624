-- ===== src/FreeBsd/Entries.antt =====
-- What the iterator of src/os_impl/freebsd.rs returns, entry by entry.
use native.Mathlib.Decide.{dec_le}
use mmap_rs.Common.{
  collect, collect-some, collect-none, ℕ, zero, suc, ◌+◌, ◌≤◌, ◌<◌, ◌≡◌, ◌≢◌, refl, ◌∙◌, ap, sym,
  Bool, true, false, arith, leb, ◌==◌, Option, none, some, List, [], ◌∷◌, ◌++◌, map, length,
  get_elem?, subst, Bool-cases, inl, inr, All, All-append, if◌then◌else◌,
}
use mmap_rs.Error.{Result, ok, err}
use mmap_rs.Bitflags.{Bitflags, IsLawful}
use mmap_rs.Areas.{MemoryArea, private, copy_on_write, shared, PathBuf}
use mmap_rs.Areas.Access.{access-add_if}
use mmap_rs.Areas.Protection as Area
use mmap_rs.FreeBsd.Protection
use mmap_rs.FreeBsd.Flags
use mmap_rs.Utf8.{from_utf8, from_utf8-ascii, IsAscii}
use mmap_rs.FreeBsd.{Entry, MemoryAreas, last, area_of, item, with_path, next, protection_of}

module _ (b : Bitflags) (width : ℕ) where
  -- The items behind the index.
  abbrev pub drop : ℕ → List Entry → List Entry
  drop zero entries = entries
  drop (suc n) [] = []
  drop (suc n) (entry ∷ entries) = drop n entries

  drop-get_elem? :
      (n : ℕ) (entries : List Entry)
      → n < length entries
      → (e : Entry) × (get_elem? entries n ≡ some e) × (drop n entries ≡ e ∷ drop (suc n) entries)
  drop-get_elem? n [] h = absurd (omega (arith, h))
  drop-get_elem? zero (e ∷ entries) h = (e, refl, refl)
  drop-get_elem? (suc n) (e ∷ entries) h = drop-get_elem? n entries (omega (arith, h))

  drop-length : (n : ℕ) (entries : List Entry) → length entries ≤ n → drop n entries ≡ []
  drop-length zero [] h = refl
  drop-length zero (e ∷ entries) h = absurd (omega (arith, h))
  drop-length (suc n) [] h = refl
  drop-length (suc n) (e ∷ entries) h = drop-length n entries (omega (arith, h))

  next-behind :
      (areas : MemoryAreas)
      → length areas.entries ≤ areas.index
      → next b width areas ≡ (none, areas)
  unfolding next
  next-behind areas h = ground arith

  next-at :
      (areas : MemoryAreas) (e : Entry)
      → areas.index < length areas.entries
      → get_elem? areas.entries areas.index ≡ some e
      → next b width areas ≡ (some (item b width e), record areas { index = areas.index + 1 })
  unfolding next
  next-at areas e h at =
      let inside : leb (length areas.entries) areas.index ≡ false = ground arith in
      rw (inside, at) refl

  -- From any place on, the iterator returns one item for each entry in order and then ends; an
  -- error does not stop it. More calls of `next` than there are entries left see them all.
  pub collect-items :
      (fuel : ℕ) (areas : MemoryAreas)
      → length areas.entries < areas.index + fuel
      → collect (next b width) fuel areas ≡ map (item b width) (drop areas.index areas.entries)
  collect-items zero areas more =
      rw (drop-length areas.index areas.entries (omega (arith, more))) refl
  collect-items (suc fuel) areas more = elim (dec_le (length areas.entries) areas.index) [
    | yes behind ↦
        collect-none (next b width) fuel areas areas (next-behind areas behind)
        ∙ ap (map (item b width)) (sym (drop-length areas.index areas.entries behind))
    | no inside ↦
        let (e, at, split) = drop-get_elem? areas.index areas.entries (omega (arith, inside)) in
        let next_one : areas.index + 1 ≡ suc areas.index = omega arith in
        let rest =
          collect-items fuel (record areas { index = areas.index + 1 }) (omega (arith, more)) in
        collect-some (next b width) fuel areas (record areas { index = areas.index + 1 })
          (item b width e) (next-at areas e (omega (arith, inside)) at)
        ∙ ap (λ r. item b width e ∷ r)
            (rest ∙ ap (λ n. map (item b width) (drop n areas.entries)) next_one)
        ∙ ap (map (item b width)) (sym split)
  ]

-- A byte of a path in ASCII: not the end.
abbrev pub IsPathByte : ℕ → Type 0
IsPathByte c = (c ≢ 0) × IsAscii c

All-IsAscii : (t : List ℕ) → All IsPathByte t → All IsAscii t
All-IsAscii [] h = tt
All-IsAscii (x ∷ t) ((_, ascii), h) = (ascii, All-IsAscii t h)

-- A buffer that is filled up with zeros.
abbrev pub zeros : ℕ → List ℕ
zeros zero = []
zeros (suc n) = 0 ∷ zeros n

zeros-IsAscii : (n : ℕ) → All IsAscii (zeros n)
zeros-IsAscii zero = tt
zeros-IsAscii (suc n) = (refl, zeros-IsAscii n)

copied_or_private : (c : Bool) → (if c then copy_on_write else private) ≢ shared
copied_or_private true h = cc
copied_or_private false h = cc

module _ (b : Bitflags) (width : ℕ) where
  last-zeros : (n : ℕ) → (last (zeros n) == 0) ≡ true
  unfolding last
  last-zeros zero = refl
  last-zeros (suc n) = refl

  last-path : (t rest : List ℕ) → t ≢ [] → All IsPathByte t → (last (t ++ rest) == 0) ≡ false
  unfolding last
  last-path [] rest ne h = absurd (ne refl)
  last-path (x ∷ t) rest ne ((nz, _), h) = ground arith

  -- If the buffer of an entry holds a path in ASCII and zeros behind it, then without a path
  -- the area has none, and with one the area has as its path the whole buffer, the zeros
  -- included.
  pub item-path :
      (entry : Entry) (t : List ℕ) (n : ℕ)
      → All IsPathByte t
      → entry.kve_path ≡ t ++ zeros n
      → item b width entry
        ≡ ok (
            area_of b width entry
              (elim t [ [] ↦ none | x ∷ s ↦ some ((x ∷ s) ++ zeros n, entry.kve_offset) ]))
  unfolding item
  item-path entry [] n h buffer = rw (buffer, last-zeros) refl
  item-path entry (x ∷ t) n h buffer =
      rw
        (
          buffer,
          last-path (x ∷ t) (zeros n) (λ e. cc) h,
          from_utf8-ascii ((x ∷ t) ++ zeros n)
              (All-append IsAscii (x ∷ t) (zeros n) (All-IsAscii (x ∷ t) h) (zeros-IsAscii n)),
        )
        refl

  with_path-eq-ok :
      (entry : Entry) (r : Result ℕ (List ℕ)) {area : MemoryArea}
      → with_path b width entry r ≡ ok area
      → (path : Option (PathBuf × ℕ)) × (area_of b width entry path ≡ area)
  with_path-eq-ok entry (ok path) h = (some (path, entry.kve_offset), cc)
  with_path-eq-ok entry (err e) h = cc

  item-eq-ok :
      (entry : Entry) {area : MemoryArea}
      → item b width entry ≡ ok area
      → (path : Option (PathBuf × ℕ)) × (area_of b width entry path ≡ area)
  unfolding item
  item-eq-ok entry h = elim (Bool-cases (last entry.kve_path == 0)) [
    | inl empty ↦ (none, ground arith)
    | inr full ↦ with_path-eq-ok entry (from_utf8 entry.kve_path) (rw full at h)
  ]

  protection_of-access :
      IsLawful b
      → (flags : ℕ)
      → (b.contains (protection_of b width flags) Area.read ≡ b.contains flags Protection.read)
        × (b.contains (protection_of b width flags) Area.write ≡ b.contains flags Protection.write)
        × (b.contains (protection_of b width flags) Area.execute
            ≡ b.contains flags Protection.execute)
  unfolding protection_of
  protection_of-access law flags =
      access-add_if b law (b.contains flags Protection.read) (b.contains flags Protection.write)
        (b.contains flags Protection.execute)

  never_shared :
      (entry : Entry) (path : Option (PathBuf × ℕ))
      → (area_of b width entry path).share_mode ≢ shared
  never_shared entry path = copied_or_private (b.contains entry.kve_flags Flags.cow)

  -- Where the operations on flags are lawful: each of the three kinds of access is in the
  -- protection of an area exactly when the entry of the area has it, and no area is shared.
  pub item-access :
      IsLawful b
      → (entry : Entry) (area : MemoryArea) → item b width entry ≡ ok area
      → (b.contains area.protection Area.read ≡ b.contains entry.kve_protection Protection.read)
        × (b.contains area.protection Area.write ≡ b.contains entry.kve_protection Protection.write)
        × (b.contains area.protection Area.execute
            ≡ b.contains entry.kve_protection Protection.execute)
        × (area.share_mode ≢ shared)
  unfolding item
  item-access law entry area h =
      let (path, is) = item-eq-ok entry h in
      let (r, w, x) = protection_of-access law entry.kve_protection in
      subst
        (λ a.
          (b.contains a.protection Area.read ≡ b.contains entry.kve_protection Protection.read)
          × (b.contains a.protection Area.write ≡ b.contains entry.kve_protection Protection.write)
          × (b.contains a.protection Area.execute
              ≡ b.contains entry.kve_protection Protection.execute)
          × (a.share_mode ≢ shared))
        is (r, w, x, never_shared entry path)
