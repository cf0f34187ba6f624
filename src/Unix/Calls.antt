-- ===== src/Unix/Calls.antt =====
-- What the functions of src/os_impl/unix.rs preserve: the calls that change no protection, and the
-- two that the others are made of.
use mmap_rs.Common.{ℕ, ◌≡◌, Option, none, some, arith, map_option}
use mmap_rs.Error.{Error, nix, Exec, convert}
use mmap_rs.Error.Preserves.{
  Preserves, convert-Preserves, pure-Preserves, >>-Preserves, >>=-Preserves,
}
use mmap_rs.Unix.Platform.{Platform}
use mmap_rs.Unix.Options.{MmapOptions}
use mmap_rs.Unix.Kernel.{IsKernel}
use mmap_rs.Unix.Mapping.{Mmap, do_make, lock, unlock, flush, flush_async, flush_icache, offset}
use mmap_rs.Unix.Map.{advise, do_map, mmap_call, nix_mmap}
use mmap_rs.Unix.Map.Outcome.{advise-Preserves}
use mmap_rs.Unix.Process.{
  Use, locks, unlocks, flushes_icache, flushes, flushes_async, run, run_flush,
}

-- A predicate on the state that looks at the protections alone.
pub record Looks (p : Platform) (k : IsKernel p) (P : p.State → Type 0) : Type 0 where
  pub respects : (s t : p.State) → ((x : ℕ) → k.prot_at t x ≡ k.prot_at s x) → P s → P t

module _ (p : Platform) (k : IsKernel p) {P : p.State → Type 0} (looks : Looks p k P) where
  same-Preserves :
      {E A : Type 0} (m : Exec p.State E A)
      → ((s : p.State) (x : ℕ) → k.prot_at (m s).1 x ≡ k.prot_at s x)
      → Preserves P m
  same-Preserves m same = record { holds_after = λ s. looks.respects s (m s).1 (same s) }

  pub do_map-Preserves :
      (o : MmapOptions) (q : ℕ) → Preserves P (nix_mmap p o q) → Preserves P (do_map p o q)
  unfolding do_map mmap_call
  do_map-Preserves o q mapped =
      >>=-Preserves (mmap_call p o q) _ (convert-Preserves nix (nix_mmap p o q) mapped) λ ptr.
        >>-Preserves (advise p o ptr) _
          (advise-Preserves p o ptr (λ f. same-Preserves _ (λ s x. k.madvise-any ptr o.size f x s))
            (same-Preserves _ (λ s x. k.mlock-any ptr o.size x s)))
          (pure-Preserves _)

  pub do_make-Preserves :
      (m : Mmap) (q : ℕ) → Preserves P (p.mprotect m.ptr m.size q) → Preserves P (do_make p m q)
  unfolding do_make
  do_make-Preserves m q changed = convert-Preserves nix (p.mprotect m.ptr m.size q) changed

  flushed-holds :
      (call : ℕ → Exec p.State Error Unit) (length : Option ℕ) (s : p.State)
      → ((n : ℕ) → Preserves P (call n))
      → P s
      → P (run_flush p (map_option call length) s)
  flushed-holds call none s keep h = h
  flushed-holds call (some n) s keep h = (keep n).holds_after s h

  msync-Preserves : (a how n : ℕ) → Preserves P (convert nix (p.msync a n how))
  msync-Preserves a how n =
      convert-Preserves nix _ (same-Preserves _ (λ s x. k.msync-any a n how x s))

  pub flush_icache-Preserves : (m : Mmap) → Preserves P (flush_icache p m)
  unfolding flush_icache
  flush_icache-Preserves m = same-Preserves _ λ s x. ground (
    arith,
    k.sys_icache_invalidate-any m.ptr m.size x s,
    k.clear_cache-any m.ptr (offset p.target m.ptr m.size) x s,
  )

  -- The methods of a mapping that do not ask for a protection keep every such predicate.
  pub run-holds : (u : Use) (m : Mmap) (s : p.State) → P s → P (run p u m s)
  unfolding run lock unlock flush flush_async
  run-holds locks m s h =
      (convert-Preserves nix (p.mlock m.ptr m.size)
          (same-Preserves _ (λ t x. k.mlock-any m.ptr m.size x t))).holds_after
        s h
  run-holds unlocks m s h =
      (convert-Preserves nix (p.munlock m.ptr m.size)
          (same-Preserves _ (λ t x. k.munlock-any m.ptr m.size x t))).holds_after
        s h
  run-holds flushes_icache m s h = (flush_icache-Preserves m).holds_after s h
  run-holds (flushes r) m s h =
      flushed-holds _ _ s (msync-Preserves (offset p.target m.ptr r.start) p.ms_sync) h
  run-holds (flushes_async r) m s h =
      flushed-holds _ _ s (msync-Preserves (offset p.target m.ptr r.start) p.ms_async) h
