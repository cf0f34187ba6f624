-- ===== src/Windows/Areas/Regions.antt =====
-- Which region the iterator of src/os_impl/windows.rs returns, and how many turns its loop takes.
use native.Mathlib.Nat.{mod-eq_of_lt}
use mmap_rs.Common.{
  ℕ, zero, suc, ◌+◌, ◌^◌, ◌≤◌, ◌<◌, ◌≡◌, ◌≢◌, lt_or_le, refl, arith, true, false, Bool-cases, inl,
  inr, Option, none, some,
}
use mmap_rs.Error.{Error, Result, ok}
use mmap_rs.Areas.{MemoryArea}
use mmap_rs.Windows.Areas.{Info, Process, add_usize, area_of, is_committed, next}

-- What the iterator relies on of `VirtualQueryEx`: a region has a size and ends inside the address
-- space, also when counted from the address that was asked for.
pub record IsProcess (p : Process) : Type 0 where
  pub sized : (a : ℕ) {info : Info} → p.virtual_query a ≡ some info → 0 < info.region_size
  pub inside :
      (a : ℕ) {info : Info} → p.virtual_query a ≡ some info → a + info.region_size < 2 ^ p.width

module _ (p : Process) where
  -- From one address to another over regions that are not committed.
  pub data Skips (a : ℕ) : ℕ → Type 0 where
    here : Skips a a
    over :
        {b : ℕ} (info : Info)
        → Skips a b
        → p.virtual_query b ≡ some info
        → is_committed p info ≡ false
        → Skips a (b + info.region_size)

  -- What `next` promises: behind regions that are not committed, the first one that is; or the end.
  abbrev pub Finds : ℕ → Option (Result Error MemoryArea) × ℕ → Type 0
  Finds a (none, c) = Skips a c × (p.virtual_query c ≡ none)
  Finds a (some item, c) =
      (b : ℕ) × (info : Info) × Skips a b
      × (p.virtual_query b ≡ some info)
      × (is_committed p info ≡ true)
      × (item ≡ ok (area_of p b info))
      × (c ≡ b + info.region_size)

  module _ (k : IsProcess p) where
    pub moved :
        (a : ℕ) {info : Info}
        → p.virtual_query a ≡ some info
        → add_usize p.width a info.region_size ≡ a + info.region_size
    unfolding add_usize
    moved a is = mod-eq_of_lt (k.inside a is)

    -- The answer to one turn of the loop, given what the later turns find.
    one_turn :
        (fuel a b : ℕ) (q : Option Info)
        → p.virtual_query b ≡ q
        → Skips a b
        → 2 ^ p.width < b + suc fuel
        → ((info : Info)
            → p.virtual_query b ≡ some info
            → Skips a (b + info.region_size)
            → 2 ^ p.width < b + info.region_size + fuel
            → (r : Option (Result Error MemoryArea) × ℕ) × (next p fuel (b + info.region_size)
                ≡ some r)
              × Finds a r)
        → (r : Option (Result Error MemoryArea) × ℕ) × (next p (suc fuel) b ≡ some r) × Finds a r
    unfolding next
    one_turn fuel a b none is skipped enough later = ((none, b), rw is refl, (skipped, is))
    one_turn fuel a b (some info) is skipped enough later =
        elim (Bool-cases (is_committed p info)) [
          | inl committed ↦ (
            (some (ok (area_of p b info)), b + info.region_size),
            rw (is, committed, moved b is) refl,
            (b, info, skipped, is, committed, refl, refl),
          )
          | inr free ↦
              let (r, found, promise) =
                later info is (over info skipped is free) (omega (arith, enough, k.sized b is)) in
              (r, rw (is, free, moved b is) found, promise)
        ]

    loop :
        (fuel a b : ℕ)
        → Skips a b
        → 2 ^ p.width < b + fuel
        → b ≤ 2 ^ p.width
        → (r : Option (Result Error MemoryArea) × ℕ) × (next p fuel b ≡ some r) × Finds a r
    loop zero a b skipped enough inside = absurd (omega (arith, enough, inside))
    loop (suc fuel) a b skipped enough inside =
        one_turn fuel a b (p.virtual_query b) refl skipped enough λ info is skipped' enough'.
          loop fuel a (b + info.region_size) skipped' enough' (omega (arith, k.inside b is))

    -- Where every region has a size and ends inside the address space: the loop of `next`
    -- ends, as many turns as there are addresses left being enough. It returns the first
    -- committed region behind the address, over regions that are not committed, and goes on
    -- behind that region; or, where no region is left, the end.
    pub next-Finds :
        (fuel a : ℕ)
        → 2 ^ p.width < a + fuel
        → a ≤ 2 ^ p.width
        → (r : Option (Result Error MemoryArea) × ℕ) × (next p fuel a ≡ some r) × Finds a r
    next-Finds fuel a enough inside = loop fuel a a here enough inside

    -- No region is behind the address space.
    next-outside :
        (a : ℕ)
        → 2 ^ p.width < a
        → (q : Option Info) → p.virtual_query a ≡ q
        → next p (suc (2 ^ p.width)) a ≢ none
    unfolding next
    next-outside a beyond none is = λ e. let it = rw is at e in cc
    next-outside a beyond (some info) is = absurd (omega (arith, beyond, k.inside a is))

    -- The loop ends from every address.
    pub next-ends : (a : ℕ) → next p (suc (2 ^ p.width)) a ≢ none
    unfolding next
    next-ends a = elim (lt_or_le (2 ^ p.width) a) [
      | inl beyond ↦ next-outside a beyond (p.virtual_query a) refl
      | inr inside ↦
          let (r, found, _) = next-Finds (suc (2 ^ p.width)) a (omega arith) inside in λ e. cc
    ]
