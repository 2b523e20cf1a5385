-- ===== src/Window.antt =====
-- src/window.rs: a window of MPI memory and its operations, `Window<T>`. An element is a number;
-- the storage behind `base` is `memory` of the library. Element types differ by width and number.
pub mod Bounds
pub mod Transfer
pub mod Allocate
use mpi_rma.Base.{ℕ, zero, suc, ◌+◌, Bool, true, not, ◌||◌}
use mpi_rma.Base.{none, some, List, [], ◌∷◌, ℤ, pos, eqb_ℤ, ltb_ℤ, as_usize}
use mpi_rma.Base.{
  length, get_elem?, get_or, slice, leb, ltb, ◌==◌, if◌then◌else◌, checked_add, i32_max,
}
use mpi_rma.Error.{Result, ok, err, panic, Error, guard, size_overflow, count_overflow}
use mpi_rma.Action.{Action, and_then, pure, lift, ◌>>=◌, ◌>>◌}
use mpi_rma.Mpi.{Mpi}

pub data MemoryModel : Type 0 where
  unified separate : MemoryModel

pub record Window : Type 0 where
  pub win : ℕ
  pub len : ℕ
  pub lengths : List ℕ
  pub rank : ℤ
  pub ranks : ℤ
  pub model : MemoryModel
  pub closed : Bool

unfoldable pub is_empty : Window → Bool
is_empty s = s.len == 0

unfoldable pub validate : Window → ℤ → ℕ → ℕ → Result (Unit {0})
validate s r start len =
    if ltb_ℤ r (pos 0) || not (ltb_ℤ r s.ranks)
    then err (Error.rank r)
    else elim (checked_add start len) [
      | none ↦ err size_overflow
      | some end ↦ elim (get_elem? s.lengths (as_usize r)) [
        | none ↦ panic
        | some window ↦ if ltb window end then err (Error.range start len window) else ok tt
      ]
    ]

-- The loop of volatile reads, one element each.
unfoldable pub read_each : List ℕ → ℕ → ℕ → List ℕ
read_each memory at zero = []
read_each memory at (suc n) = get_or memory at 0 ∷ read_each memory (at + 1) n

module _ (m : Mpi) where
  open m use {World}

  -- `check`
  unfoldable pub check : ℤ → Result (Unit {0})
  check code = if eqb_ℤ code m.success then ok tt else err (Error.mpi code)

  -- A call of the library that returns a code, under `check(…)?`.
  abbrev pub checked : (World → ℤ × World) → Action World (Unit {0})
  checked call w = let r = call w in (check r.0, r.1)

  unfoldable sync : Window → Action World (Unit {0})
  unfolding check
  sync s = checked (m.win_sync s.win)

  -- The storage of this rank.
  abbrev pub local : Window → World → List ℕ
  local s w = m.memory s.win (as_usize s.rank) w

  unfoldable pub read_local : Window → ℕ → ℕ → World → Result (List ℕ)
  read_local s disp n w = elim (validate s s.rank disp n) [
    | ok _ ↦ if n == 0 then ok [] else ok (slice disp n (local s w))
    | err e ↦ err e
    | panic ↦ panic
  ]

  unfoldable pub read_local_volatile : Window → ℕ → ℕ → World → Result (List ℕ)
  read_local_volatile s disp n w = elim (validate s s.rank disp n) [
    | ok _ ↦ ok (read_each (local s w) disp n)
    | err e ↦ err e
    | panic ↦ panic
  ]

  abbrev count_of : ℕ → Result (Unit {0})
  count_of n = guard (leb n i32_max) count_overflow

  unfoldable pub put : Window → ℤ → ℕ → List ℕ → Action World (Unit {0})
  unfolding check
  put s dest disp items = do
    lift (validate s dest disp (length items))
    lift (count_of (length items))
    checked (m.put s.win dest disp items)
    checked (m.flush s.win dest)

  unfoldable pub get : Window → ℤ → ℕ → ℕ → Action World (List ℕ)
  unfolding check
  get s source disp n = do
    lift (validate s source disp n)
    lift (count_of n)
    out ← got
    checked (m.flush s.win source)
    pure out
    where
      got : Action World (List ℕ)
      got w = let r = m.get s.win source disp n w in and_then (check r.0, r.2) (λ _. pure r.1)

  unfoldable pub fetch_add : Window → ℤ → ℕ → ℕ → Action World ℕ
  unfolding check
  fetch_add s dest disp value = do
    lift (validate s dest disp 1)
    previous ← fetched
    checked (m.flush s.win dest)
    pure previous
    where
      fetched : Action World ℕ
      fetched w =
          let r = m.fetch_and_sum s.win dest disp value w in
          and_then (check r.0, r.2) (λ _. pure r.1)

  abbrev left : Window → Result (Unit {0}) × World → (Result (Unit {0}) × Window) × World
  left s (ok _, w) = ((ok tt, record s { closed = true }), w)
  left s (err e, w) = ((err e, s), w)
  left s (panic, w) = ((panic, s), w)

  -- `finish` returns the window with its `closed` flag beside the result.
  unfoldable pub finish : Window → World → (Result (Unit {0}) × Window) × World
  unfolding check
  finish s w =
      if s.closed
      then ((ok tt, s), w)
      else left s ((checked (m.unlock_all s.win) >> checked (m.free s.win)) w)

  -- `Drop` ignores the result.
  unfoldable pub drop_window : Window → World → World
  unfolding finish
  drop_window s w = (finish s w).1

  abbrev mark_failed : Result (Unit {0}) × Window → Window
  mark_failed (ok _, s) = s
  mark_failed (err e, s) = record s { closed = true }
  mark_failed (panic, s) = s

  -- `close` consumes the window, which is dropped at its end.
  unfoldable pub close : Window → World → Result (Unit {0}) × World
  unfolding finish drop_window
  close s w = let r = finish s w in (r.0.0, drop_window (mark_failed r.0) r.1)
