-- ===== src/Windows/Builder.antt =====
-- The builder of src/os_impl/windows.rs under the builder of src/mmap.rs.
pub mod Examples
use mmap_rs.Common.{ℕ, ◌≡◌, refl, ◌∙◌, [], ◌∷◌, none, unwrap_or, List}
use mmap_rs.Mmap.Options as Wrapper
use mmap_rs.Mmap.Options.{MmapOptions}
use mmap_rs.Mmap.Options.Order
use mmap_rs.Mmap.Options.Order.{
  Setting, call, call_all, asked_address, asked_file, asked_flags, asked_unsafe_flags,
  asked_page_size, last_of, call_all-last_of,
}
use mmap_rs.Windows.Platform.{Platform}
use mmap_rs.Windows.Options
use mmap_rs.Windows.Backend.{windows}

-- The options that a sequence of calls asks for.
abbrev pub windows_built : (p : Platform) → ℕ → List (Setting (windows p)) → Options.MmapOptions
windows_built p size xs = record {
  address = last_of (asked_address (windows p)) xs none;
  file = last_of (asked_file (windows p)) xs none;
  size = size;
  flags = last_of (asked_flags (windows p)) xs 0;
  unsafe_flags = last_of (asked_unsafe_flags (windows p)) xs 0;
  page_size = last_of (asked_page_size (windows p)) xs none;
}

module _ (p : Platform) where
  sets_address :
      (x : Setting (windows p)) (o : MmapOptions (windows p))
      → (call (windows p) x o).inner.address
        ≡ unwrap_or (asked_address (windows p) x) o.inner.address
  unfolding call Options.with_address Options.with_file Options.with_flags Options.with_unsafe_flags
      Options.with_page_size
  sets_address (Order.address a) o = refl
  sets_address _ o = refl

  sets_file :
      (x : Setting (windows p)) (o : MmapOptions (windows p))
      → (call (windows p) x o).inner.file ≡ unwrap_or (asked_file (windows p) x) o.inner.file
  unfolding call Options.with_address Options.with_file Options.with_flags Options.with_unsafe_flags
      Options.with_page_size
  sets_file (Order.file f offset) o = refl
  sets_file _ o = refl

  sets_flags :
      (x : Setting (windows p)) (o : MmapOptions (windows p))
      → (call (windows p) x o).inner.flags ≡ unwrap_or (asked_flags (windows p) x) o.inner.flags
  unfolding call Options.with_address Options.with_file Options.with_flags Options.with_unsafe_flags
      Options.with_page_size
  sets_flags (Order.flags f) o = refl
  sets_flags _ o = refl

  sets_unsafe_flags :
      (x : Setting (windows p)) (o : MmapOptions (windows p))
      → (call (windows p) x o).inner.unsafe_flags
        ≡ unwrap_or (asked_unsafe_flags (windows p) x) o.inner.unsafe_flags
  unfolding call Options.with_address Options.with_file Options.with_flags Options.with_unsafe_flags
      Options.with_page_size
  sets_unsafe_flags (Order.unsafe_flags f) o = refl
  sets_unsafe_flags _ o = refl

  sets_page_size :
      (x : Setting (windows p)) (o : MmapOptions (windows p))
      → (call (windows p) x o).inner.page_size
        ≡ unwrap_or (asked_page_size (windows p) x) o.inner.page_size
  unfolding call Options.with_address Options.with_file Options.with_flags Options.with_unsafe_flags
      Options.with_page_size
  sets_page_size (Order.page_size s) o = refl
  sets_page_size _ o = refl

  keeps_size :
      (x : Setting (windows p)) (o : MmapOptions (windows p))
      → (call (windows p) x o).inner.size ≡ o.inner.size
  unfolding call Options.with_address Options.with_file Options.with_flags Options.with_unsafe_flags
      Options.with_page_size
  keeps_size (Order.address a) o = refl
  keeps_size _ o = refl

  sized :
      (xs : List (Setting (windows p))) (o : MmapOptions (windows p))
      → (call_all (windows p) xs o).inner.size ≡ o.inner.size
  unfolding call_all
  sized [] o = refl
  sized (x ∷ xs) o = sized xs (call (windows p) x o) ∙ keeps_size x o

  -- On Windows, the options that any sequence of calls of the builder of `MmapOptions`, in any
  -- order and with repetitions, makes of a size have that size, and in each of the five other
  -- fields what the last call that sets the field was given, or nothing if there is none.
  pub call_all-windows_built :
      (size : ℕ) (xs : List (Setting (windows p)))
      → (call_all (windows p) xs (Wrapper.new (windows p) size)).inner ≡ windows_built p size xs
  unfolding Wrapper.new Options.new
  call_all-windows_built size xs =
      let o = Wrapper.new (windows p) size in
      λ i. record {
        address =
            call_all-last_of (windows p) (λ o. o.inner.address) (asked_address (windows p))
              sets_address xs o i;
        file =
            call_all-last_of (windows p) (λ o. o.inner.file) (asked_file (windows p)) sets_file xs o
              i;
        size = sized xs o i;
        flags =
            call_all-last_of (windows p) (λ o. o.inner.flags) (asked_flags (windows p)) sets_flags
              xs o i;
        unsafe_flags =
            call_all-last_of (windows p) (λ o. o.inner.unsafe_flags)
              (asked_unsafe_flags (windows p)) sets_unsafe_flags xs o i;
        page_size =
            call_all-last_of (windows p) (λ o. o.inner.page_size) (asked_page_size (windows p))
              sets_page_size xs o i;
      }
