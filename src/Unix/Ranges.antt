-- ===== src/Unix/Ranges.antt =====
-- The addresses that `flush` and `flush_async` of src/os_impl/unix.rs hand to `msync`, and the file
-- offset that `do_map` hands to `mmap`.
use Prim.Native.Nat.{◌-◌}
use native.Mathlib.Nat.{mod-eq_of_lt, add-mul-mod_self_right, pow-le-pow_right}
use mmap_rs.Common.{
  ℕ, ℤ, ◌+◌, ◌*◌, ◌∙◌, unwrap_or, ◌^◌, ◌≤◌, ◌<◌, ◌≡◌, refl, Bool, true, false, Option, none, some,
  arith, pos, as_signed, signed, ap, if◌then◌else◌, map_option,
}
use mmap_rs.Error.{Error, nix, Exec, pure, convert, ◌>>=◌, ◌>>◌}
use mmap_rs.Backend.{Range}
use mmap_rs.Unix.Platform.{Target, Platform}
use mmap_rs.Unix.Options.{File, MmapOptions, flags}
use mmap_rs.Unix.Mapping.{Mmap, sub_usize, offset, flush, flush_async}
use mmap_rs.Unix.Map.{advise, mmap_call, do_map, remembered}

sub_usize-le : (t : Target) (a b : ℕ) → b ≤ a → sub_usize t a b ≡ some (a - b)
unfolding sub_usize
sub_usize-le t a b h = ground arith

sub_usize-lt :
    (t : Target) (a b : ℕ)
    → a < b
    → b < 2 ^ t.pointer_width
    → sub_usize t a b ≡ (if t.overflow_checks then none else some (2 ^ t.pointer_width - (b - a)))
unfolding sub_usize
sub_usize-lt t a b h k =
    let e : a + 2 ^ t.pointer_width - b ≡ 2 ^ t.pointer_width - (b - a) = omega arith in
    ground (arith, e)

offset-lt : (t : Target) (ptr n : ℕ) → ptr + n < 2 ^ t.pointer_width → offset t ptr n ≡ ptr + n
offset-lt t ptr n h = mod-eq_of_lt h

map_option-if {ℓ κ} :
    {A : Type ℓ} {B : Type κ} (f : A → B) (b : Bool) (x y : Option A)
    → map_option f (if b then x else y) ≡ (if b then map_option f x else map_option f y)
map_option-if f true x y = refl
map_option-if f false x y = refl

-- A request to `msync` for `n` bytes from the address `a`.
abbrev pub synced : (p : Platform) → ℕ → ℕ → ℕ → Exec p.State Error Unit
synced p how a n = convert nix (p.msync a n how)

module _ (p : Platform) (m : Mmap) (r : Range) where
  -- A range that is in order and inside a mapping, which lies inside the address space, is
  -- flushed as it is: `msync` is asked for the bytes from `ptr + start` to `ptr + end`, which
  -- all belong to the mapping, to be written before it returns or later.
  pub flush-inside :
      r.start ≤ r.end
      → r.end ≤ m.size
      → m.ptr + m.size < 2 ^ p.target.pointer_width
      → (flush p m r ≡ some (synced p p.ms_sync (m.ptr + r.start) (r.end - r.start)))
        × (flush_async p m r ≡ some (synced p p.ms_async (m.ptr + r.start) (r.end - r.start)))
        × (m.ptr + r.start + (r.end - r.start) ≤ m.ptr + m.size)
  unfolding flush flush_async
  flush-inside ordered inside fits =
      let whole : m.ptr + r.start < 2 ^ p.target.pointer_width = omega arith in
      (
        rw (sub_usize-le p.target r.end r.start ordered, offset-lt p.target m.ptr r.start whole),
        rw (sub_usize-le p.target r.end r.start ordered, offset-lt p.target m.ptr r.start whole),
        omega arith,
      )

  -- A range whose end is below its start, which is an address, is not refused by `flush`: where
  -- overflow is checked the call panics, and elsewhere the length wraps, and `msync` is asked
  -- for the address space less the difference.
  pub flush_reversed :
      r.end < r.start
      → r.start < 2 ^ p.target.pointer_width
      → flush p m r ≡ (
          if p.target.overflow_checks
          then none
          else some (
              synced p p.ms_sync
                (offset p.target m.ptr r.start)
                (2 ^ p.target.pointer_width - (r.start - r.end))))
  unfolding flush
  flush_reversed reversed fits =
      rw (sub_usize-lt p.target r.end r.start reversed fits) (map_option-if _ _ _ _)

as_signed-lt : (w n : ℕ) → n < 2 ^ (w - 1) → as_signed w n ≡ pos n
as_signed-lt w n h =
    let wider : 2 ^ (w - 1) ≤ 2 ^ w = pow-le-pow_right (omega arith) (omega arith) in
    let small : n < 2 ^ w = omega arith in rw (mod-eq_of_lt small) (ground arith)

as_signed-add : (w n q : ℕ) → as_signed w (n + q * 2 ^ w) ≡ as_signed w n
as_signed-add w n q = ap (signed w) (add-mul-mod_self_right n q (2 ^ w))

-- The options to map the file from the offset `n` on.
abbrev pub mapped_from : MmapOptions → File → ℕ → MmapOptions
mapped_from o file n = record o { file = some (file, n) }

module _ (p : Platform) (o : MmapOptions) (file : File) (protect : ℕ) where
  -- `mmap` at an offset of the file, its error, and what follows a success.
  abbrev pub mapped_at : ℤ → Exec p.State Error Mmap
  mapped_at z = do
    ptr ← convert nix (
        p.mmap (unwrap_or o.address 0) o.size protect (flags p (mapped_from o file 0)) file.raw_fd
          z)
    advise p (mapped_from o file 0) ptr
    pure (record { file = some file; ptr = ptr; size = o.size; flags = remembered p o })

  mapped_from-mapped_at :
      (n : ℕ) (s : p.State)
      → do_map p (mapped_from o file n) protect s ≡ mapped_at (as_signed p.target.off_width n) s
  unfolding do_map mmap_call flags advise
  mapped_from-mapped_at n s = refl

  -- For a file offset that fits the positive numbers of `off_t`, `do_map` asks `mmap` for
  -- exactly that offset of the file, and goes on from its answer; and for every larger offset
  -- of 64 bits that differs from it by a multiple of the range of `off_t`, `do_map` asks for
  -- the small one as well.
  pub do_map-offset :
      (n q : ℕ)
      → n < 2 ^ (p.target.off_width - 1)
      → n + q * 2 ^ p.target.off_width < 2 ^ 64
      → (s : p.State)
      → (do_map p (mapped_from o file n) protect s ≡ mapped_at (pos n) s)
        × (do_map p (mapped_from o file (n + q * 2 ^ p.target.off_width)) protect s
            ≡ mapped_at (pos n) s)
  do_map-offset n q fits is_u64 s =
      let small = ap (λ z. mapped_at z s) (as_signed-lt p.target.off_width n fits) in
      (
        mapped_from-mapped_at n s ∙ small,
        mapped_from-mapped_at (n + q * 2 ^ p.target.off_width) s
            ∙ ap (λ z. mapped_at z s) (as_signed-add p.target.off_width n q)
            ∙ small,
      )
