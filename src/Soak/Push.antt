-- ===== src/Soak/Push.antt =====
-- `push`: a send that is retried while the ring is full.
use mpi_rma.Base.{ℕ, ◌-◌, ◌%◌, ◌≡◌, Option, none, some, List, [], ◌∷◌, word_mod}
use mpi_rma.Error.{Error, Result, ok, err, panic, full}

-- The cases of the `match`.
pub data Attempt : Type 0 where
  went : Attempt
  again : Attempt
  gave_up : Error → Attempt
  unwound : Attempt

unfoldable pub attempt : Result ℕ → Attempt
attempt (ok _) = went
attempt (err full) = again
attempt (err e) = gave_up e
attempt panic = unwound

-- `now` is the clock, in nanoseconds.
module _ {S : Type 0} (send : S → Result ℕ × S) (now : S → ℕ) where
  -- `refused.map(|at| at.elapsed().as_nanos() as u64)`.
  abbrev pub waited : Option ℕ → S → Option ℕ
  waited none s = none
  waited (some at) s = some ((now s - at) % word_mod)

  -- `refused.get_or_insert_with(Instant::now)`.
  abbrev pub get_or_insert : Option ℕ → S → Option ℕ
  get_or_insert none s = some (now s)
  get_or_insert (some at) s = some at

  -- One element of the list is what the rest of the system does while this thread yields. `none` is
  -- a loop that is still running when the list ends.
  unfoldable pub push : List (S → S) → Option ℕ → S → Option (Result (Option ℕ) × S)
  unfolding attempt
  push [] refused s = elim (attempt (send s).0) [
    | went ↦ some (ok (waited refused (send s).1), (send s).1)
    | again ↦ none
    | gave_up e ↦ some (err e, (send s).1)
    | unwound ↦ some (panic, (send s).1)
  ]
  push (others ∷ rest) refused s = elim (attempt (send s).0) [
    | went ↦ some (ok (waited refused (send s).1), (send s).1)
    | again ↦ push rest (get_or_insert refused (send s).1) (others (send s).1)
    | gave_up e ↦ some (err e, (send s).1)
    | unwound ↦ some (panic, (send s).1)
  ]

  pub push_went :
      (turns : List (S → S)) (refused : Option ℕ) (s : S) (n : ℕ)
      → (send s).0 ≡ ok n
      → push turns refused s ≡ some (ok (waited refused (send s).1), (send s).1)
  unfolding push attempt
  push_went [] refused s n e = rw (push, attempt, e)
  push_went (others ∷ rest) refused s n e = rw (push, attempt, e)

  pub push_again :
      (others : S → S) (rest : List (S → S)) (refused : Option ℕ) (s : S)
      → (send s).0 ≡ err full
      → push (others ∷ rest) refused s
        ≡ push rest (get_or_insert refused (send s).1) (others (send s).1)
  unfolding push attempt
  push_again others rest refused s e = rw (push, attempt, e)
