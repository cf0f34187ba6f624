-- ===== src/Mmap/Options/Order.antt =====
-- The order of the calls that build the options of src/mmap.rs, and what was asked for last.
use mmap_rs.Common.{ℕ, ◌≡◌, refl, ap, ◌∙◌, Option, none, some, unwrap_or, List, [], ◌∷◌}
use mmap_rs.Flags.PageSize.{PageSize}
use mmap_rs.Backend.{Backend}
use mmap_rs.Mmap.Options
use mmap_rs.Mmap.Options.{MmapOptions}

-- A call of one of the five methods of the builder.
pub data Setting (b : Backend) : Type 0 where
  address : ℕ → Setting b
  file : b.File → ℕ → Setting b
  flags : ℕ → Setting b
  unsafe_flags : ℕ → Setting b
  page_size : PageSize → Setting b

module _ (b : Backend) where
  unfoldable pub call : Setting b → MmapOptions b → MmapOptions b
  unfolding Options.with_address Options.with_file Options.with_flags Options.with_unsafe_flags
      Options.with_page_size
  call (address a) o = Options.with_address b o a
  call (file f offset) o = Options.with_file b o f offset
  call (flags f) o = Options.with_flags b o f
  call (unsafe_flags f) o = Options.with_unsafe_flags b o f
  call (page_size s) o = Options.with_page_size b o s

  -- The calls in their order.
  unfoldable pub call_all : List (Setting b) → MmapOptions b → MmapOptions b
  call_all [] o = o
  call_all (x ∷ xs) o = call_all xs (call x o)

  -- What a call asks for, of each of the five.
  abbrev pub asked_address : Setting b → Option (Option ℕ)
  asked_address (address a) = some (some a)
  asked_address _ = none

  abbrev pub asked_file : Setting b → Option (Option (b.File × ℕ))
  asked_file (file f offset) = some (some (f, offset))
  asked_file _ = none

  abbrev pub asked_flags : Setting b → Option ℕ
  asked_flags (flags f) = some f
  asked_flags _ = none

  abbrev pub asked_unsafe_flags : Setting b → Option ℕ
  asked_unsafe_flags (unsafe_flags f) = some f
  asked_unsafe_flags _ = none

  abbrev pub asked_page_size : Setting b → Option (Option PageSize)
  asked_page_size (page_size s) = some (some s)
  asked_page_size _ = none

-- What the last call that asks for it has asked for, or else `otherwise`.
unfoldable pub last_of : {A X : Type 0} → (A → Option X) → List A → X → X
last_of asked [] otherwise = otherwise
last_of asked (x ∷ xs) otherwise = last_of asked xs (unwrap_or (asked x) otherwise)

-- A field that each call sets to what it asks for, or leaves.
pub call_all-last_of :
    (b : Backend) {X : Type 0} (field : MmapOptions b → X) (asked : Setting b → Option X)
    → ((x : Setting b) (o : MmapOptions b) → field (call b x o) ≡ unwrap_or (asked x) (field o))
    → (xs : List (Setting b)) (o : MmapOptions b)
    → field (call_all b xs o) ≡ last_of asked xs (field o)
unfolding call_all last_of
call_all-last_of b field asked sets [] o = refl
call_all-last_of b field asked sets (x ∷ xs) o =
    call_all-last_of b field asked sets xs (call b x o) ∙ ap (last_of asked xs) (sets x o)
