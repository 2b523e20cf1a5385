-- ===== src/Mpi.antt =====
-- The MPI library (the `mpi` crate and the C library below it) is not part of the repository. Its
-- calls are the operations of a record; `Laws` states what its documentation promises of them.
-- `World` is the state of the library and of all window memory, on every rank.
pub mod Model
use mpi_rma.Base.{ℕ, ◌+◌, ◌≤◌, ◌<◌, ◌≡◌, ◌≢◌, ◌⊎◌, Bool, Option, List, ℤ, pos}
use mpi_rma.Base.{length, get_elem?, some, overwrite, set, add_word}
use mpi_rma.Error.{Threading}

pub record Comm : Type 0 where
  pub inter : Bool
  pub size : ℤ
  pub rank : ℤ

pub record Mpi : Type 1 where
  pub World : Type 0
  pub success : ℤ
  pub err_win : ℤ
  pub threading_support : Threading
  -- What the base address of `win` on a rank reaches, element by element.
  pub memory : (win rank : ℕ) → World → List ℕ
  -- `MPI_Put` of the whole list at `disp`, and the other calls: a return code and the new world.
  pub put : (win : ℕ) (dest : ℤ) (disp : ℕ) → List ℕ → World → ℤ × World
  pub get : (win : ℕ) (source : ℤ) (disp count : ℕ) → World → ℤ × List ℕ × World
  pub fetch_and_sum : (win : ℕ) (dest : ℤ) (disp value : ℕ) → World → ℤ × ℕ × World
  pub flush : (win : ℕ) (target : ℤ) → World → ℤ × World
  pub win_sync : (win : ℕ) → World → ℤ × World
  pub lock_all : (win : ℕ) → World → ℤ × World
  pub unlock_all : (win : ℕ) → World → ℤ × World
  pub free : (win : ℕ) → World → ℤ × World
  -- `MPI_Win_allocate` of `bytes`: the code, the handle, and whether the base is not null.
  pub allocate : (bytes width : ℕ) → Comm → World → ℤ × ℕ × Bool × World
  -- `MPI_WIN_MODEL` of `win`: the code, and the attribute if it is set.
  pub win_model : (win : ℕ) → World → ℤ × Option ℤ
  pub unified : ℤ
  -- A local store through the base address.
  pub store : (win rank : ℕ) → List ℕ → World → World
  pub all_gather : Comm → List ℕ → World → List ℕ × World
  pub barrier : Comm → World → World

-- What the ring relies on. Where two calls both return success, the transfer is complete.
pub record Laws (m : Mpi) : Type 0 where
  -- A put that was flushed has landed at its target.
  pub put_lands :
      (win d disp : ℕ) (xs : List ℕ) (w : m.World)
      → (m.put win (pos d) disp xs w).0 ≡ m.success
      → (m.flush win (pos d) (m.put win (pos d) disp xs w).1).0 ≡ m.success
      → disp + length xs ≤ length (m.memory win d w)
      → m.memory win d (m.flush win (pos d) (m.put win (pos d) disp xs w).1).1
        ≡ overwrite (m.memory win d w) disp xs
  -- Neither call touches the memory of another window or of another rank.
  pub put_elsewhere :
      (win d disp : ℕ) (xs : List ℕ) (w : m.World) (win' d' : ℕ)
      → (win' ≢ win) ⊎ (d' ≢ d)
      → m.memory win' d' (m.flush win (pos d) (m.put win (pos d) disp xs w).1).1
        ≡ m.memory win' d' w
  -- A flushed fetch-and-add of 64-bit elements returns the old element and stores the sum.
  pub fetch_lands :
      (win d disp v old : ℕ) (w : m.World)
      → (m.fetch_and_sum win (pos d) disp v w).0 ≡ m.success
      → (m.flush win (pos d) (m.fetch_and_sum win (pos d) disp v w).2).0 ≡ m.success
      → get_elem? (m.memory win d w) disp ≡ some old
      → ((m.fetch_and_sum win (pos d) disp v w).1 ≡ old)
        × (m.memory win d (m.flush win (pos d) (m.fetch_and_sum win (pos d) disp v w).2).1
            ≡ set (m.memory win d w) disp (add_word old v))
  pub fetch_elsewhere :
      (win d disp v : ℕ) (w : m.World) (win' d' : ℕ)
      → (win' ≢ win) ⊎ (d' ≢ d)
      → m.memory win' d' (m.flush win (pos d) (m.fetch_and_sum win (pos d) disp v w).2).1
        ≡ m.memory win' d' w

-- Every transfer returns success, as it does under MPI's default error handler, which ends the job
-- otherwise.
pub record Reliable (m : Mpi) : Type 0 where
  pub put_succeeds :
      (win : ℕ) (dest : ℤ) (disp : ℕ) (xs : List ℕ) (w : m.World)
      → (m.put win dest disp xs w).0 ≡ m.success
  pub fetch_succeeds :
      (win : ℕ) (dest : ℤ) (disp v : ℕ) (w : m.World)
      → (m.fetch_and_sum win dest disp v w).0 ≡ m.success
  pub flush_succeeds : (win : ℕ) (target : ℤ) (w : m.World) → (m.flush win target w).0 ≡ m.success
