-- ===== src/Error.antt =====
-- src/error.rs: the error type, Rust's `Result`, and methods that call the operating system.
pub mod Inversion
pub mod Preserves
use mmap_rs.Common.{ℕ}

-- A variant holds the number that identifies the wrapped error: the OS error code of an
-- `std::io::Error`, the `errno` of a `nix::Error`, the HRESULT of a `windows::core::Error`, the
-- `valid_up_to` of a `Utf8Error`. The argument of `unsafe_flag_needed` is the bits of the flags.
pub data Error : Type 0 where
  unsafe_flag_needed : ℕ → Error
  io : ℕ → Error
  parse_int : ℕ → Error
  utf8 : ℕ → Error
  nix : ℕ → Error
  sysctl : ℕ → Error
  mach : ℕ → Error
  windows : ℕ → Error

pub data Result {ℓ} (E A : Type ℓ) : Type ℓ where
  ok : A → Result E A
  err : E → Result E A

-- A call that reads and changes the state `S` of the system. What it changed before an error stays.
abbrev pub Exec {ℓ} : Type ℓ → Type ℓ → Type ℓ → Type ℓ
Exec S E A = S → Result E A × S

module _ {ℓ} {S E A : Type ℓ} where
  abbrev pub pure : A → Exec S E A
  pure a s = (ok a, s)

  abbrev pub raise : E → Exec S E A
  raise e s = (err e, s)

module _ {ℓ} {S E A B : Type ℓ} where
  abbrev pub continue : (A → Exec S E B) → Result E A × S → Result E B × S
  continue f (ok a, s) = f a s
  continue f (err e, s) = (err e, s)

  -- `let a = m?; f(a)`
  infixl 10 ◌>>=◌ ◌>>◌
  abbrev pub ◌>>=◌ : Exec S E A → (A → Exec S E B) → Exec S E B
  ◌>>=◌ m f s = continue f (m s)

  abbrev pub ◌>>◌ : Exec S E A → Exec S E B → Exec S E B
  m >> n = m >>= λ _. n

-- The conversion of the error that `?` makes through `From`.
module _ {ℓ} {S E F A : Type ℓ} where
  abbrev pub convert_result : (E → F) → Result E A × S → Result F A × S
  convert_result g (ok a, s) = (ok a, s)
  convert_result g (err e, s) = (err (g e), s)

  abbrev pub convert : (E → F) → Exec S E A → Exec S F A
  convert g m s = convert_result g (m s)
