-- ===== src/Ring/Construct/Rows.antt =====
-- The comparison of every rank's row with this rank's own.
use mpi_rma.Base.{ℕ, zero, suc, ◌<◌, ◌≡◌, ◌↔◌, refl, sym, ◌∙◌, arith}
use mpi_rma.Base.{List, [], ◌∷◌, ◌++◌, length, take, drop, length-append, true, false}
use mpi_rma.Base.{◌||◌, not}
use mpi_rma.Base.{take-append_le, take_all, drop-length_append}
use mpi_rma.Ring.Construct.{same_words, any_other, any_row_other}

-- What a gathering of one row from each rank gives: the rows in the order of the ranks.
abbrev pub rows_joined : (n : ℕ) → (ℕ → List ℕ) → List ℕ
rows_joined zero row = []
rows_joined (suc n) row = row 0 ++ rows_joined n (λ r. row (suc r))

same_words_iff : (xs ys : List ℕ) → (same_words xs ys ≡ true) ↔ (xs ≡ ys)
unfolding same_words
same_words_iff [] [] = ground arith
same_words_iff [] (y ∷ ys) = ground arith
same_words_iff (x ∷ xs) [] = ground arith
same_words_iff (x ∷ xs) (y ∷ ys) = ground (arith, same_words_iff xs ys)

-- Every rank contributed the same number.
pub any_other_iff :
    (n v : ℕ) (count : ℕ → ℕ)
    → (any_other v (rows_joined n (λ r. count r ∷ [])) ≡ false) ↔ ((r : ℕ) → r < n → count r ≡ v)
unfolding any_other
any_other_iff zero v count = (λ e r h. absurd (omega arith), λ h. refl)
any_other_iff (suc n) v count =
    let ih = any_other_iff n v (λ r. count (suc r)) in
    (
      λ e r. elim r as (λ k. k < suc n → count k ≡ v) [
        | zero ↦ λ lt. ground arith
        | suc r' ↦ λ lt. ih.0 (ground arith) r' (omega arith)
      ],
      λ h.
          let first = h 0 (omega arith) in
          let others = ih.1 (λ r lt. h (suc r) (omega arith)) in ground arith,
    )

take-length_append : (xs ys : List ℕ) → take (length xs) (xs ++ ys) ≡ xs
take-length_append xs ys =
    take-append_le (length xs) xs ys (omega arith) ∙ take_all (length xs) xs (omega arith)

-- A round of the comparison looks at the first row, and goes on with the rest.
row_step :
    (left : ℕ) (local first rest : List ℕ)
    → length first ≡ length local
    → any_row_other (suc left) local (first ++ rest)
      ≡ (not (same_words first local) || any_row_other left local rest)
unfolding any_row_other
row_step left local first rest full =
    let room = length-append first rest in
    let head : take (length local) (first ++ rest) ≡ first =
      rw (← full) (take-length_append first rest) in
    let tail : drop (length local) (first ++ rest) ≡ rest =
      rw (← full) (drop-length_append first rest) in
    ground arith

pub any_row_other_iff :
    (n : ℕ) (local : List ℕ) (row : ℕ → List ℕ)
    → ((r : ℕ) → r < n → length (row r) ≡ length local)
    → (any_row_other n local (rows_joined n row) ≡ false) ↔ ((r : ℕ) → r < n → row r ≡ local)
unfolding any_row_other
any_row_other_iff zero local row full = (λ e r h. absurd (omega arith), λ h. refl)
any_row_other_iff (suc n) local row full =
    let step = row_step n local (row 0) (rows_joined n (λ r. row (suc r))) (full 0 (omega arith)) in
    let ih = any_row_other_iff n local (λ r. row (suc r)) (λ r lt. full (suc r) (omega arith)) in
    let first = same_words_iff (row 0) local in
    (
      λ e r.
          let both = sym step ∙ e in
          elim r as (λ k. k < suc n → row k ≡ local) [
            | zero ↦ λ lt. first.0 (ground arith)
            | suc r' ↦ λ lt. ih.0 (ground arith) r' (omega arith)
          ],
      λ h.
          let same = first.1 (h 0 (omega arith)) in
          let others = ih.1 (λ r lt. h (suc r) (omega arith)) in step ∙ ground arith,
    )
