-- ===== src/Error.antt =====
-- src/error.rs: the error type of the crate, and results that fail with it. `panic` is no `Err`: an
-- index out of bounds or a failed assertion unwinds.
pub mod Display
use mpi_rma.Base.{ℕ, String, Option, none, some, Bool, true, false, ◌≡◌, refl, ◌⊎◌, inl, inr}
use mpi_rma.Base.{ℤ}

-- `mpi::Threading`, the level that the MPI library grants.
pub data Threading : Type 0 where
  single funneled serialized multiple : Threading

pub data Error : Type 0 where
  mpi : ℤ → Error
  threading : Threading → Error
  intercommunicator : Error
  size_overflow : Error
  count_overflow : Error
  rank : ℤ → Error
  range : (start len window : ℕ) → Error
  window : String → Error
  full : Error
  ring : String → Error
  payload : (len capacity : ℕ) → Error
  ack : (origin : ℤ) (sequence received : ℕ) → Error
  lapped : (origin : ℤ) (expected found : ℕ) → Error

pub data Result {ℓ} (A : Type ℓ) : Type ℓ where
  ok : A → Result A
  err : Error → Result A
  panic : Result A

infixl 5 ◌>>=◌ ◌>>◌
abbrev pub ◌>>=◌ {ℓ μ} : {A : Type ℓ} {C : Type μ} → Result A → (A → Result C) → Result C
panic >>= next = panic
err e >>= next = err e
ok a >>= next = next a

abbrev pub ◌>>◌ {ℓ} : {C : Type ℓ} → Result (Unit {0}) → Result C → Result C
first >> second = first >>= λ _. second

-- `if !test { return Err(e) }`.
abbrev pub guard : Bool → Error → Result (Unit {0})
guard true e = ok tt
guard false e = err e

-- `ok_or(e)?`.
abbrev pub ok_or {ℓ} : {A : Type ℓ} → Option A → Error → Result A
ok_or none e = err e
ok_or (some a) e = ok a

-- An index that is checked, and panics out of bounds.
abbrev pub or_panic {ℓ} : {A : Type ℓ} → Option A → Result A
or_panic none = panic
or_panic (some a) = ok a

-- A thread that unwinds poisons the locks it holds.
abbrev pub is_panic {ℓ} : {A : Type ℓ} → Result A → Bool
is_panic (ok a) = false
is_panic (err e) = false
is_panic panic = true

-- To split on a computed result and keep the equation.
pub Result-cases {ℓ} :
    {A : Type ℓ} (r : Result A)
    → ((a : A) × (r ≡ ok a)) ⊎ (((e : Error) × (r ≡ err e)) ⊎ (r ≡ panic))
Result-cases (ok a) = inl (a, refl)
Result-cases (err e) = inr (inl (e, refl))
Result-cases panic = inr (inr refl)
