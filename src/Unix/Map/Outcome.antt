-- ===== src/Unix/Map/Outcome.antt =====
-- What `do_map` of src/os_impl/unix.rs returns when it succeeds, and what it does to the memory.
use mmap_rs.Common.{ℕ, ◌≡◌, Bool, true, false, map_option}
use mmap_rs.Error.{nix, ok, Exec}
use mmap_rs.Error.Inversion.{>>=-eq-ok, >>-pure-eq-ok}
use mmap_rs.Error.Preserves.{Preserves, pure-Preserves, convert-Preserves, preserves_rules}
use mmap_rs.Unix.Platform.{Platform}
use mmap_rs.Unix.Options.{MmapOptions}
use mmap_rs.Unix.Mapping.{Mmap}
use mmap_rs.Unix.Map.{call_if, advise, do_map, mmap_call, remembered}

module _ (p : Platform) {P : p.State → Type 0} where
  call_if-Preserves :
      (b : Bool) (call : Exec p.State ℕ Unit) → Preserves P call → Preserves P (call_if p b call)
  unfolding call_if
  call_if-Preserves true call k = convert-Preserves nix call k
  call_if-Preserves false call k = pure-Preserves tt

  -- The calls after `mmap` preserve what `madvise` and `mlock` preserve.
  pub advise-Preserves :
      (o : MmapOptions) (ptr : ℕ)
      → ((f : ℕ) → Preserves P (p.madvise ptr o.size f))
      → Preserves P (p.mlock ptr o.size)
      → Preserves P (advise p o ptr)
  unfolding advise
  advise-Preserves o ptr advised locked = search (call_if-Preserves, preserves_rules)

-- The mapping that the options ask for, at the address `q`.
abbrev pub mapping_at : Platform → MmapOptions → ℕ → Mmap
mapping_at p o q = record {
  file = map_option (λ f. f.0) o.file;
  ptr = q;
  size = o.size;
  flags = remembered p o;
}

-- A mapping that is returned is at the address that `mmap` gave, and is as the options ask.
pub do_map-eq-ok :
    (p : Platform) (o : MmapOptions) (prot : ℕ) (s : p.State) {m : Mmap} {t : p.State}
    → do_map p o prot s ≡ (ok m, t)
    → (q : ℕ) × (s1 : p.State) × (mmap_call p o prot s ≡ (ok q, s1))
      × (advise p o q s1 ≡ (ok tt, t))
      × (m ≡ mapping_at p o q)
unfolding do_map
do_map-eq-ok p o prot s h =
    let (q, s1, mapped, after) = >>=-eq-ok (mmap_call p o prot) _ s h in
    let (u, advised, e) = >>-pure-eq-ok (advise p o q) _ s1 after in (q, s1, mapped, advised, e)
