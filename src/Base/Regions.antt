-- ===== src/Base/Regions.antt =====
-- Regions of a memory: reading `n` cells from `i` on, and writing a list of cells from `i` on.
use Prim.Native.Nat.{ℕ, zero, suc, ◌+◌, ◌≤◌, ◌<◌}
use mathlib.Core.Path.{◌≡◌, refl, sym, ap, ◌∙◌}
use mathlib.Core.Logic.{◌⊎◌, inl, inr}
use mathlib.Core.List.{List, [], ◌∷◌, ◌++◌}
use native.Mathlib.Omega.{arith}
use mpi_rma.Base.Lists.{length, take, drop, get_or, All, take-append-drop}

module _ {ℓ} {A : Type ℓ} where
  abbrev pub slice : ℕ → ℕ → List A → List A
  slice zero n xs = take n xs
  slice (suc i) n [] = []
  slice (suc i) n (x ∷ xs) = slice i n xs

  -- Cells past the end of the memory are not written.
  abbrev pub overwrite : List A → ℕ → List A → List A
  overwrite [] i ys = []
  overwrite (x ∷ xs) zero [] = x ∷ xs
  overwrite (x ∷ xs) zero (y ∷ ys) = y ∷ overwrite xs zero ys
  overwrite (x ∷ xs) (suc i) ys = x ∷ overwrite xs i ys

module _ {ℓ} {A : Type ℓ} where
  pub length-overwrite :
      (xs : List A) (i : ℕ) (ys : List A) → length (overwrite xs i ys) ≡ length xs
  length-overwrite [] i ys = refl
  length-overwrite (x ∷ xs) zero [] = refl
  length-overwrite (x ∷ xs) zero (y ∷ ys) = ap suc (length-overwrite xs zero ys)
  length-overwrite (x ∷ xs) (suc i) ys = ap suc (length-overwrite xs i ys)

  pub length-slice : (i n : ℕ) (xs : List A) → i + n ≤ length xs → length (slice i n xs) ≡ n
  length-slice zero zero xs h = refl
  length-slice zero (suc n) [] h = absurd (omega arith)
  length-slice zero (suc n) (x ∷ xs) h = ap suc (length-slice zero n xs (omega arith))
  length-slice (suc i) n [] h = absurd (omega arith)
  length-slice (suc i) n (x ∷ xs) h = length-slice i n xs (omega arith)

  -- What was written is read back.
  pub slice-overwrite_self :
      (xs : List A) (i n : ℕ) (ys : List A)
      → n ≡ length ys
      → i + n ≤ length xs
      → slice i n (overwrite xs i ys) ≡ ys
  slice-overwrite_self [] zero zero [] e h = refl
  slice-overwrite_self [] zero zero (y ∷ ys) e h = absurd (omega arith)
  slice-overwrite_self [] zero (suc n) ys e h = absurd (omega arith)
  slice-overwrite_self [] (suc i) n ys e h = absurd (omega arith)
  slice-overwrite_self (x ∷ xs) zero zero [] e h = refl
  slice-overwrite_self (x ∷ xs) zero zero (y ∷ ys) e h = absurd (omega arith)
  slice-overwrite_self (x ∷ xs) zero (suc n) [] e h = absurd (omega arith)
  slice-overwrite_self (x ∷ xs) zero (suc n) (y ∷ ys) e h =
      ap (λ t. y ∷ t) (slice-overwrite_self xs zero n ys (omega arith) (omega arith))
  slice-overwrite_self (x ∷ xs) (suc i) n ys e h = slice-overwrite_self xs i n ys e (omega arith)

  take-overwrite_le :
      (xs : List A) (i n : ℕ) (ys : List A) → n ≤ i → take n (overwrite xs i ys) ≡ take n xs
  take-overwrite_le xs i zero ys h = refl
  take-overwrite_le [] i (suc n) ys h = refl
  take-overwrite_le (x ∷ xs) zero (suc n) ys h = absurd (omega arith)
  take-overwrite_le (x ∷ xs) (suc i) (suc n) ys h =
      ap (λ t. x ∷ t) (take-overwrite_le xs i n ys (omega arith))

  -- A region that the write does not meet is as it was.
  pub slice-overwrite_disjoint :
      (xs : List A) (i j n : ℕ) (ys : List A)
      → (j + n ≤ i) ⊎ (i + length ys ≤ j)
      → slice j n (overwrite xs i ys) ≡ slice j n xs
  slice-overwrite_disjoint [] i zero n ys h = refl
  slice-overwrite_disjoint [] i (suc j) n ys h = refl
  slice-overwrite_disjoint (x ∷ xs) zero zero n [] h = refl
  slice-overwrite_disjoint (x ∷ xs) zero zero zero (y ∷ ys) h = refl
  slice-overwrite_disjoint (x ∷ xs) zero zero (suc n) (y ∷ ys) h = absurd (omega arith)
  slice-overwrite_disjoint (x ∷ xs) zero (suc j) n [] h = refl
  slice-overwrite_disjoint (x ∷ xs) zero (suc j) n (y ∷ ys) (inl h) = absurd (omega arith)
  slice-overwrite_disjoint (x ∷ xs) zero (suc j) n (y ∷ ys) (inr h) =
      slice-overwrite_disjoint xs zero j n ys (inr (omega arith))
  slice-overwrite_disjoint (x ∷ xs) (suc i) zero n ys (inl h) =
      take-overwrite_le (x ∷ xs) (suc i) n ys (omega arith)
  slice-overwrite_disjoint (x ∷ xs) (suc i) zero n ys (inr h) = absurd (omega arith)
  slice-overwrite_disjoint (x ∷ xs) (suc i) (suc j) n ys (inl h) =
      slice-overwrite_disjoint xs i j n ys (inl (omega arith))
  slice-overwrite_disjoint (x ∷ xs) (suc i) (suc j) n ys (inr h) =
      slice-overwrite_disjoint xs i j n ys (inr (omega arith))

  -- A list is its front, a region behind that, and the rest.
  pub slices-append :
      (n k d : ℕ) (xs : List A) → d ≡ n + k → slice 0 n xs ++ slice n k xs ++ drop d xs ≡ xs
  slices-append zero k d xs e =
      let same : d ≡ k = omega arith in
      ap (λ i. take k xs ++ drop i xs) same ∙ take-append-drop k xs
  slices-append (suc n) k zero xs e = absurd (omega arith)
  slices-append (suc n) k (suc d) [] e = refl
  slices-append (suc n) k (suc d) (x ∷ xs) e =
      ap (λ t. x ∷ t) (slices-append n k d xs (omega arith))

  slice-take : (j n k : ℕ) (xs : List A) → j + n ≤ k → slice j n (take k xs) ≡ slice j n xs
  slice-take zero zero k xs h = refl
  slice-take zero (suc n) zero xs h = absurd (omega arith)
  slice-take zero (suc n) (suc k) [] h = refl
  slice-take zero (suc n) (suc k) (x ∷ xs) h =
      ap (λ t. x ∷ t) (slice-take zero n k xs (omega arith))
  slice-take (suc j) n zero xs h = absurd (omega arith)
  slice-take (suc j) n (suc k) [] h = refl
  slice-take (suc j) n (suc k) (x ∷ xs) h = slice-take j n k xs (omega arith)

  slice-nil : (i n : ℕ) → slice {A = A} i n [] ≡ []
  slice-nil zero zero = refl
  slice-nil zero (suc n) = refl
  slice-nil (suc i) n = refl

  -- A region of a region, by its place in the whole.
  pub slice-slice :
      (i k j n p : ℕ) (xs : List A)
      → j + n ≤ k
      → p ≡ i + j
      → slice j n (slice i k xs) ≡ slice p n xs
  slice-slice zero k j n p xs h e =
      rw (slice-take j n k xs h) (ap (λ t. slice t n xs) (omega arith))
  slice-slice (suc i) k j n p [] h e = slice-nil j n ∙ sym (slice-nil p n)
  slice-slice (suc i) k j n zero (x ∷ xs) h e = absurd (omega arith)
  slice-slice (suc i) k j n (suc p) (x ∷ xs) h e = slice-slice i k j n p xs h (omega arith)

  pub take_all : (n : ℕ) (xs : List A) → length xs ≤ n → take n xs ≡ xs
  take_all zero [] h = refl
  take_all zero (x ∷ xs) h = absurd (omega arith)
  take_all (suc n) [] h = refl
  take_all (suc n) (x ∷ xs) h = ap (λ t. x ∷ t) (take_all n xs (omega arith))

  pub slice-zero : (i : ℕ) (xs : List A) → slice i zero xs ≡ []
  slice-zero zero xs = refl
  slice-zero (suc i) [] = refl
  slice-zero (suc i) (x ∷ xs) = slice-zero i xs

  pub slice-suc :
      (i n : ℕ) (d : A) (xs : List A)
      → i < length xs
      → slice i (suc n) xs ≡ get_or xs i d ∷ slice (i + 1) n xs
  slice-suc i n d [] h = absurd (omega arith)
  slice-suc zero n d (x ∷ xs) h = refl
  slice-suc (suc i) n d (x ∷ xs) h =
      let step : suc (i + 1) ≡ suc i + 1 = omega arith in
      slice-suc i n d xs (omega arith) ∙ ap (λ k. get_or xs i d ∷ slice k n (x ∷ xs)) step

  pub All-slice {κ} : (P : A → Type κ) (i n : ℕ) (xs : List A) → All P xs → All P (slice i n xs)
  All-slice P zero zero xs h = tt
  All-slice P zero (suc n) [] h = tt
  All-slice P zero (suc n) (x ∷ xs) h = (h.0, All-slice P zero n xs h.1)
  All-slice P (suc i) n [] h = tt
  All-slice P (suc i) n (x ∷ xs) h = All-slice P i n xs h.1
