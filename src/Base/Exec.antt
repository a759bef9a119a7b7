-- ===== src/Base/Exec.antt =====
-- Methods that change an object and may throw. What was written before a throw stays written, so
-- the state comes back beside the error too.

use mathlib.Core.Path.{◌≡◌, refl}
use mathlib.Core.Logic.{◌⊎◌, inl, inr}

-- What the methods may throw, and the two ways in which they break down.
pub data Error : Type 0 where
  -- std::out_of_range, from HomeLogStore::read_sync
  out_of_range : Error
  -- std::overflow_error, from nuraft::buffer
  overflow_error : Error
  -- std::exception itself
  exception : Error
  -- std::runtime_error
  runtime_error : Error
  -- a call through a null pointer
  null_pointer : Error
  -- a memory access outside the buffer
  bad_access : Error
  -- a failed assert
  assertion : Error
  -- a loop that runs for more rounds than it was given, which is not an error of the code
  out_of_rounds : Error

pub data Result {ℓ} (A : Type ℓ) : Type ℓ where
  ok : A → Result A
  err : Error → Result A

pub Result-cases {ℓ} :
    {A : Type ℓ} (r : Result A) → ((a : A) × (r ≡ ok a)) ⊎ ((e : Error) × (r ≡ err e))
Result-cases (ok a) = inl (a, refl)
Result-cases (err e) = inr (e, refl)

abbrev pub Exec {ℓ} : Type ℓ → Type ℓ → Type ℓ
Exec S A = S → Result A × S

module _ {ℓ} {S A : Type ℓ} where
  abbrev pub pure : A → Exec S A
  pure a s = (ok a, s)

  abbrev pub throw : Error → Exec S A
  throw e s = (err e, s)

  abbrev pub lift : Result A → Exec S A
  lift r s = (r, s)

module _ {ℓ} {S A B : Type ℓ} where
  abbrev pub continue : Result A → (A → Exec S B) → Exec S B
  continue (ok a) f s = f a s
  continue (err e) f s = (err e, s)

  infixl 10 ◌>>=◌ ◌>>◌
  abbrev pub ◌>>=◌ : Exec S A → (A → Exec S B) → Exec S B
  ◌>>=◌ m f s = continue (m s).0 f (m s).1

  abbrev pub ◌>>◌ : Exec S A → Exec S B → Exec S B
  m >> n = m >>= λ _. n
