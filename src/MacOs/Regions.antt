-- ===== src/MacOs/Regions.antt =====
-- The order in which the iterator of src/os_impl/macos.rs goes over the regions, and where it stays.
use native.Mathlib.Nat.{mod-eq_of_lt}
use mmap_rs.Common.{
  ◌==◌, if◌then◌else◌, ℕ, zero, suc, ◌+◌, ◌%◌, ◌^◌, ◌≤◌, ◌<◌, ◌≡◌, refl, ◌∙◌, ap, subst, arith,
  Option, none, some, List, [], ◌∷◌, collect, collect-some,
}
use mmap_rs.Error.{Error, Result, ok, err}
use mmap_rs.Bitflags.{IsLawful}
use mmap_rs.Areas.Access.{access-add_if}
use mmap_rs.Areas.Protection
use mmap_rs.Areas.{private, shared, MemoryArea, PathBuf, start, end}
use mmap_rs.Utf8.{from_utf8}
use mmap_rs.MacOs.{
  Region, KernReturn, kern_success, kern_invalid_address, kern_failure, Task, saturating_add,
  area_of, named, with_path, answered, next, protection_of,
}

-- What the iterator relies on of the kernel: the region at an address ends behind the address, has a
-- size, and lies inside the address space; and the kernel finds it again at its own address.
pub record IsTask (t : Task) : Type 0 where
  pub ends_behind :
      (a : ℕ) {r : Region} → t.mach_vm_region a ≡ kern_success r → a < r.address + r.size
  pub inside :
      (a : ℕ) {r : Region}
      → t.mach_vm_region a ≡ kern_success r
      → (r.address + r.size < 2 ^ t.width) × (r.address + r.size < 2 ^ 64)
  pub again :
      (a : ℕ) {r : Region}
      → t.mach_vm_region a ≡ kern_success r
      → t.mach_vm_region r.address ≡ kern_success r

-- The same item over and over.
abbrev pub replicate : {A : Type 0} → ℕ → A → List A
replicate zero x = []
replicate (suc n) x = x ∷ replicate n x

module _ (t : Task) where
  collect-fixed :
      (fuel a : ℕ) (x : Result Error MemoryArea)
      → next t a ≡ (some x, a)
      → collect (next t) fuel a ≡ replicate fuel x
  collect-fixed zero a x h = refl
  collect-fixed (suc fuel) a x h =
      collect-some (next t) fuel a a x h ∙ ap (λ r. x ∷ r) (collect-fixed fuel a x h)

  named-eq-err :
      (r : Region) (name : Result ℕ (List ℕ)) {e : Error} {b : ℕ}
      → named t r name ≡ (some (err e), b)
      → b ≡ r.address
  named-eq-err r (ok path) h = cc
  named-eq-err r (err e) h = cc

  named-eq-ok :
      (r : Region) (name : Result ℕ (List ℕ)) {area : MemoryArea} {b : ℕ}
      → named t r name ≡ (some (ok area), b)
      → (path : Option (PathBuf × ℕ)) × (area_of t r path ≡ area)
        × (saturating_add r.address r.size ≡ b)
  named-eq-ok r (ok path) h = (some (path, r.offset), cc, cc)
  named-eq-ok r (err e) h = cc

  with_path-eq-err :
      (r : Region) (bytes : List ℕ) {e : Error} {b : ℕ}
      → with_path t r bytes ≡ (some (err e), b)
      → b ≡ r.address
  with_path-eq-err r [] h = cc
  with_path-eq-err r (c ∷ bytes) h = named-eq-err r (from_utf8 (c ∷ bytes)) h

  pub with_path-eq-ok :
      (r : Region) (bytes : List ℕ) {area : MemoryArea} {b : ℕ}
      → with_path t r bytes ≡ (some (ok area), b)
      → (path : Option (PathBuf × ℕ)) × (area_of t r path ≡ area)
        × (saturating_add r.address r.size ≡ b)
  with_path-eq-ok r [] h = (none, cc, cc)
  with_path-eq-ok r (c ∷ bytes) h = named-eq-ok r (from_utf8 (c ∷ bytes)) h

  answered-fixed :
      IsTask t
      → (a : ℕ) (k : KernReturn) {e : Error} {b : ℕ} → t.mach_vm_region a ≡ k
      → answered t a k ≡ (some (err e), b)
      → next t b ≡ (some (err e), b)
  unfolding next
  answered-fixed task a (kern_success r) {e} is h =
      let same = with_path-eq-err r (t.proc_regionfilename r.address) h in
      rw (same, task.again a is) (h ∙ ap (λ n. (some (err e), n)) same)
  answered-fixed task a kern_invalid_address is h = cc
  answered-fixed task a (kern_failure result) {e} {b} is h =
      subst (λ n. answered t n (t.mach_vm_region n) ≡ (some (err e), b)) (ap (λ r. r.1) h) (rw is h)

  -- Where the kernel finds a region again at its own address: after an error the iterator never
  -- goes on, every later call of `next` returns the same error, so a client that goes on until
  -- `None` does not end.
  pub collect-stuck :
      IsTask t
      → (a : ℕ) {e : Error} {b : ℕ} → next t a ≡ (some (err e), b)
      → (fuel : ℕ) → collect (next t) fuel b ≡ replicate fuel (err e)
  unfolding next
  collect-stuck task a {e} {b} h fuel =
      collect-fixed fuel b (err e) (answered-fixed task a (t.mach_vm_region a) refl h)

  answered-advances :
      IsTask t
      → (a : ℕ) (k : KernReturn) {area : MemoryArea} {b : ℕ} → t.mach_vm_region a ≡ k
      → answered t a k ≡ (some (ok area), b)
      → (a < b) × (start area ≤ end area) × (b ≡ end area)
  unfolding start end saturating_add
  answered-advances task a (kern_success r) {b = b} is h =
      let (path, same, moved) = with_path-eq-ok r (t.proc_regionfilename r.address) h in
      let (in_usize, in_u64) = task.inside a is in
      let low : r.address % 2 ^ t.width ≡ r.address = mod-eq_of_lt (omega (arith, in_usize)) in
      let high : (r.address % 2 ^ t.width + r.size) % 2 ^ t.width ≡ r.address + r.size =
        rw low (mod-eq_of_lt in_usize) in
      let here : b ≡ r.address + r.size = ground (arith, moved, in_u64) in
      subst (λ x. (a < b) × (start x ≤ end x) × (b ≡ end x)) same
        (omega (arith, task.ends_behind a is), omega (arith, low, high), omega (arith, high))
  answered-advances task a kern_invalid_address is h = cc
  answered-advances task a (kern_failure result) is h = cc

  -- Where the kernel answers with regions that end behind the address and inside the address
  -- space: after an area the iterator goes on behind it, its address is the end of the area,
  -- and has grown.
  pub next-advances :
      IsTask t
      → (a : ℕ) {area : MemoryArea} {b : ℕ} → next t a ≡ (some (ok area), b)
      → (a < b) × (start area ≤ end area) × (b ≡ end area)
  unfolding next
  next-advances task a h = answered-advances task a (t.mach_vm_region a) refl h

-- The area has the access of the region, and is shared exactly when the region is.
abbrev pub Describes : (t : Task) → MemoryArea → Region → Type 0
Describes t area r =
    (t.contains area.protection Protection.read ≡ t.contains r.protection t.vm_prot_read)
    × (t.contains area.protection Protection.write ≡ t.contains r.protection t.vm_prot_write)
    × (t.contains area.protection Protection.execute ≡ t.contains r.protection t.vm_prot_execute)
    × (area.share_mode ≡ (if r.shared == 0 then private else shared))

module _ (t : Task) (law : IsLawful t.bitflags) where
  answered-Describes :
      (a : ℕ) (k : KernReturn) {area : MemoryArea} {b : ℕ}
      → answered t a k ≡ (some (ok area), b)
      → (r : Region) × (k ≡ kern_success r) × Describes t area r
  unfolding protection_of
  answered-Describes a (kern_success r) {area} h =
      let (path, same, moved) = with_path-eq-ok t r (t.proc_regionfilename r.address) h in
      let (read, write, execute) =
        access-add_if t.bitflags law (t.contains r.protection t.vm_prot_read)
          (t.contains r.protection t.vm_prot_write) (t.contains r.protection t.vm_prot_execute) in
      (r, refl, subst (λ x. Describes t x r) same (read, write, execute, refl))
  answered-Describes a kern_invalid_address h = cc
  answered-Describes a (kern_failure result) h = cc

  -- Where the operations on flags are lawful: an area that the iterator returns describes the
  -- region that the kernel answered with: it has each of the three kinds of access exactly when
  -- the region has it, and is shared exactly when the region is.
  pub next-Describes :
      (a : ℕ) {area : MemoryArea} {b : ℕ}
      → next t a ≡ (some (ok area), b)
      → (r : Region) × (t.mach_vm_region a ≡ kern_success r) × Describes t area r
  unfolding next
  next-Describes a h = answered-Describes a (t.mach_vm_region a) h
