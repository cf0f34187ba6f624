-- ===== src/Unix/Exclusive.antt =====
-- Which protections of src/os_impl/unix.rs let a page be written and executed at once.
pub mod Calls
use mmap_rs.Common.{ℕ, ◌^◌, ◌≡◌, ◌≢◌, refl, sym, ap, Bool, false, ◌&&◌, none, arith, ◌==◌}
use mmap_rs.Error.{nix}
use mmap_rs.Flags.UnsafeMmapFlags
use mmap_rs.Unix.Platform.{Platform}
use mmap_rs.Unix.Kernel.{HasProtections}
use mmap_rs.Unix.Mapping
use mmap_rs.Unix.Mapping.{Mmap}
use mmap_rs.Unix.Map
use mmap_rs.Unix.Map.Protection.{Access, no_access, read_only, exec, mutable, exec_mutable, prot_of}

-- Writable and executable at once.
abbrev pub both : Platform → ℕ → Bool
both p q = p.contains q p.prot_write && p.contains q p.prot_exec

pub eqb_of_ne : (i j : ℕ) → i ≢ j → (i == j) ≡ false
eqb_of_ne i j h = ground arith

module _ (p : Platform) (h : HasProtections p) where
  -- The bit `i` in the protections that the code combines.
  abbrev has : ℕ → ℕ → Bool
  has q i = p.contains q (2 ^ i)

  pub has-read : (i : ℕ) → has p.prot_read i ≡ (h.read_bit == i)
  has-read i = rw h.prot_read-pow (h.bits.contains-bit h.read_bit i)

  pub has-write : (i : ℕ) → has p.prot_write i ≡ (h.write_bit == i)
  has-write i = rw h.prot_write-pow (h.bits.contains-bit h.write_bit i)

  pub has-exec : (i : ℕ) → has p.prot_exec i ≡ (h.exec_bit == i)
  has-exec i = rw h.prot_exec-pow (h.bits.contains-bit h.exec_bit i)

  pub has-none : (i : ℕ) → has p.prot_none i ≡ false
  has-none i = rw h.prot_none-empty (h.bits.contains-empty i)

  both-bits : (q : ℕ) → both p q ≡ (has q h.write_bit && has q h.exec_bit)
  both-bits q = rw (h.prot_write-pow, h.prot_exec-pow)

  exec-ne-write : h.exec_bit ≢ h.write_bit
  exec-ne-write e = h.write-ne-exec (sym e)

  -- The combination of no access, of reading, of reading with executing and of reading with
  -- writing holds not both.
  pub both-prot_of : (a : Access) → a ≢ exec_mutable → both p (prot_of p a) ≡ false
  both-prot_of no_access ne = rw (both-bits, has-none)
  both-prot_of read_only ne = rw (both-bits, has-read, has-read, eqb_of_ne _ _ h.read-ne-write)
  both-prot_of exec ne =
      rw (both-bits, h.bits.contains-union, has-read, has-exec)
        (rw (eqb_of_ne _ _ h.read-ne-write, eqb_of_ne _ _ exec-ne-write))
  both-prot_of mutable ne = rw (both-bits) (
      simp
        (
          h.bits.contains-union,
          has-read,
          has-write,
          eqb_of_ne _ _ h.read-ne-exec,
          eqb_of_ne _ _ h.write-ne-exec,
        )
        (ground arith))
  both-prot_of exec_mutable ne = absurd (ne refl)
