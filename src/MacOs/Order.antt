-- ===== src/MacOs/Order.antt =====
-- The order of the areas that the iterator of src/os_impl/macos.rs returns.
use native.Mathlib.Nat.{mod-eq_of_lt}
use mmap_rs.Common.{
  ℕ, zero, suc, ◌+◌, ◌%◌, ◌^◌, ◌≤◌, ◌≡◌, refl, ◌∙◌, ap, subst, sym, arith, Option, none, some, List,
  [], ◌∷◌, collect, collect-some, collect-none,
}
use mmap_rs.Error.{Error, Result, ok, err}
use mmap_rs.Areas.{MemoryArea, start, end}
use mmap_rs.MacOs.{
  Region, KernReturn, kern_success, kern_invalid_address, kern_failure, Task, answered, next,
}
use mmap_rs.MacOs.Regions.{IsTask, replicate, collect-stuck, next-advances, with_path-eq-ok}

-- The areas stand one behind the other, from an address on, and none ends before it starts; errors
-- may stand between them.
abbrev pub Ascending : ℕ → List (Result Error MemoryArea) → Type 0
Ascending low [] = Unit
Ascending low (ok area ∷ items) =
    (low ≤ start area) × (start area ≤ end area) × Ascending (end area) items
Ascending low (err e ∷ items) = Ascending low items

replicate-Ascending : (low fuel : ℕ) (e : Error) → Ascending low (replicate fuel (err e))
replicate-Ascending low zero e = tt
replicate-Ascending low (suc fuel) e = replicate-Ascending low fuel e

-- No region lies across the address: one that is found from there starts there or behind it.
abbrev pub Separates : Task → ℕ → Type 0
Separates t a = (r : Region) → t.mach_vm_region a ≡ kern_success r → a ≤ r.address

-- What the iterator relies on of the kernel: regions do not overlap.
pub record IsDisjoint (t : Task) : Type 0 where
  pub behind :
      (a : ℕ) {r : Region} → t.mach_vm_region a ≡ kern_success r → Separates t (r.address + r.size)

module _ (t : Task) (k : IsTask t) (d : IsDisjoint t) where
  answered-start :
      (a : ℕ) (q : KernReturn) {area : MemoryArea} {b : ℕ}
      → t.mach_vm_region a ≡ q
      → answered t a q ≡ (some (ok area), b)
      → Separates t a
      → (a ≤ start area) × Separates t (end area)
  unfolding start end
  answered-start a (kern_success r) is h apart =
      let (path, same, moved) = with_path-eq-ok t r (t.proc_regionfilename r.address) h in
      let (in_usize, in_u64) = k.inside a is in
      let low : r.address % 2 ^ t.width ≡ r.address = mod-eq_of_lt (omega (arith, in_usize)) in
      let high : (r.address % 2 ^ t.width + r.size) % 2 ^ t.width ≡ r.address + r.size =
        rw low (mod-eq_of_lt in_usize) in
      subst (λ x. (a ≤ start x) × Separates t (end x)) same
        (omega (arith, low, apart r is), subst (Separates t) (sym high) (d.behind a is))
  answered-start a kern_invalid_address is h apart = cc
  answered-start a (kern_failure result) is h apart = cc

  collected :
      (fuel a b : ℕ) (item : Option (Result Error MemoryArea))
      → next t a ≡ (item, b)
      → Separates t a
      → (Separates t b → Ascending b (collect (next t) fuel b))
      → Ascending a (collect (next t) (suc fuel) a)
  unfolding next
  collected fuel a b none is apart rest =
      subst (Ascending a) (sym (collect-none (next t) fuel a b is)) tt
  collected fuel a b (some (err e)) is apart rest =
      subst (Ascending a)
        (sym (
          collect-some (next t) fuel a b (err e) is
          ∙ ap (λ xs. err e ∷ xs) (collect-stuck t k a is fuel)))
        (replicate-Ascending a fuel e)
  collected fuel a b (some (ok area)) is apart rest =
      let (grows, ordered, at_end) = next-advances t k a is in
      let (first, next_apart) = answered-start a (t.mach_vm_region a) refl is apart in
      subst (Ascending a) (sym (collect-some (next t) fuel a b (ok area) is)) (
        first,
        ordered,
        subst (λ n. Ascending n (collect (next t) fuel b)) at_end
            (rest (subst (Separates t) (sym at_end) next_apart)),
      )

  -- Where the kernel answers with regions that end behind the address and inside the address
  -- space, do not overlap, and are found again at their own address: from an address that no
  -- region lies across, the areas that the iterator returns stand one behind the other,
  -- whatever errors stand between them, and none ends before it starts.
  pub collect-Ascending :
      (fuel low : ℕ) → Separates t low → Ascending low (collect (next t) fuel low)
  collect-Ascending zero low apart = tt
  collect-Ascending (suc fuel) low apart =
      collected fuel low (next t low).1 (next t low).0 refl apart
        (collect-Ascending fuel (next t low).1)
