-- ===== src/Soak.antt =====
-- examples/soak.rs: the stress test of the ring, and what its threads end with.
pub mod Payload
pub mod Push
pub mod Lanes
pub mod Poller
pub mod Sender
pub mod Safe
pub mod Verdict
use mpi_rma.Base.{ℕ, ℤ, ◌≡◌, refl, ◌⊎◌, inl, inr}
use mpi_rma.Error.{Error}

-- The reasons for which the poller thread gives up, with the values that its text shows.
pub data Failure : Type 0 where
  short : (origin : ℤ) (len : ℕ) → Failure
  foreign : (origin : ℤ) (sequence : ℕ) (ring_origin : ℤ) (ring_sequence : ℕ) → Failure
  torn : (origin : ℤ) (sequence at found want : ℕ) → Failure
  poll_failed : Error → Failure
  backwards : (origin : ℤ) (sequence previous : ℕ) → Failure
  skipped : (origin : ℤ) (want sequence : ℕ) → Failure
  ack_failed : (origin : ℤ) → Error → Failure

-- `Result<A, String>`, or an unwinding thread.
pub data Outcome {ℓ} (A : Type ℓ) : Type ℓ where
  done : A → Outcome A
  failed : Failure → Outcome A
  panicked : Outcome A

infixl 5 ◌>>=◌
abbrev pub ◌>>=◌ {ℓ μ} : {A : Type ℓ} {C : Type μ} → Outcome A → (A → Outcome C) → Outcome C
done a >>= next = next a
failed e >>= next = failed e
panicked >>= next = panicked

-- A chain that ends well went through each of its parts.
pub done-bind {ℓ μ} :
    {A : Type ℓ} {C : Type μ} (r : Outcome A) (next : A → Outcome C) (c : C)
    → (r >>= next) ≡ done c
    → (a : A) × (r ≡ done a) × (next a ≡ done c)
done-bind (done a) next c e = (a, refl, e)
done-bind (failed f) next c e = cc
done-bind panicked next c e = cc

pub Outcome-cases {ℓ} :
    {A : Type ℓ} (r : Outcome A)
    → ((a : A) × (r ≡ done a)) ⊎ (((e : Failure) × (r ≡ failed e)) ⊎ (r ≡ panicked))
Outcome-cases (done a) = inl (a, refl)
Outcome-cases (failed e) = inr (inl (e, refl))
Outcome-cases panicked = inr (inr refl)
