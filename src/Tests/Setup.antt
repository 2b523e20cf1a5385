-- ===== src/Tests/Setup.antt =====
-- A communicator of two ranks with one lane, from rank 0 to rank 1: two slots of twelve bytes.
use mpi_rma.Base.{ℕ, zero, suc, ◌<◌, ◌^◌, ◌≡◌, refl, arith, some, false, List, [], ◌∷◌, pos}
use mpi_rma.Base.{length, get_elem?, replicate, All, ◌==◌, ◌&&◌, if◌then◌else◌}
use mpi_rma.Mpi.{Reliable}
use mpi_rma.Mpi.Model.{Cells, instant}
use mpi_rma.Window.{Window, unified}
use mpi_rma.Window.Bounds.{IsWindow}
use mpi_rma.Ring.Types.{Lane}
use mpi_rma.Ring.Image.RoundTrip.{IsLane}
use mpi_rma.Ring.Regions.{IsPlaced}
use mpi_rma.Protocol.{Link, IsLink}
use mpi_rma.Protocol.Delivery.{IsZeroed}

pub instant-Reliable : Reliable instant
instant-Reliable = record {
  put_succeeds = λ win dest disp xs w. refl;
  fetch_succeeds = λ win dest disp v w. refl;
  flush_succeeds = λ win target w. refl;
}

abbrev pub lane : Lane
lane = record { offset = 0; depth = 2; capacity = 12; slot = 40; ack = 0 }

-- Window 0 holds slots, on rank 1; window 1 holds a counter, on rank 0.
abbrev pub slots_of : ℕ → Window
slots_of rank = record {
  win = 0;
  len = if rank == 1 then 80 else 0;
  lengths = 0 ∷ 80 ∷ [];
  rank = pos rank;
  ranks = pos 2;
  model = unified;
  closed = false;
}

abbrev pub acks_of : ℕ → Window
acks_of rank = record {
  win = 1;
  len = if rank == 0 then 1 else 0;
  lengths = 1 ∷ 0 ∷ [];
  rank = pos rank;
  ranks = pos 2;
  model = unified;
  closed = false;
}

abbrev pub zeroed : ℕ → ℕ → List ℕ
zeroed win rank =
    if win == 0 && rank == 1
    then replicate 80 0
    else if win == 1 && rank == 0
    then replicate 1 0
    else []

abbrev pub world : Cells
world = record { next = 2; cell = zeroed }

abbrev pub link : Link
link = record {
  lane = lane;
  source = 0;
  dest = 1;
  slots_out = slots_of 0;
  slots_in = slots_of 1;
  acks_out = acks_of 0;
  acks_in = acks_of 1;
  slot_total = 80;
  ack_total = 1;
}

pub lane-IsLane : IsLane lane
lane-IsLane = record { slot_size = refl; slot_small = omega arith; deep = omega arith }

pub lane-IsPlaced : IsPlaced lane 80
lane-IsPlaced = record { is_lane = lane-IsLane; inside = omega arith; addressable = omega arith }

pub link-IsLink : IsLink link
link-IsLink = record {
  placed = lane-IsPlaced;
  inside = omega arith;
  same_slots = refl;
  same_acks = refl;
  apart = λ e. omega arith;
  at_dest = refl;
  at_source = refl;
  slots_out_size = refl;
  slots_in_size = refl;
  acks_out_size = refl;
  acks_in_size = refl;
}

slot_sizes :
    (d n : ℕ) → get_elem? (0 ∷ 80 ∷ []) d ≡ some n → (length (zeroed 0 d) ≡ n) × (n < 2 ^ 63)
slot_sizes zero n e = ground arith
slot_sizes (suc zero) n e = ground arith
slot_sizes (suc (suc d)) n e = cc

ack_sizes : (d n : ℕ) → get_elem? (1 ∷ 0 ∷ []) d ≡ some n → (length (zeroed 1 d) ≡ n) × (n < 2 ^ 63)
ack_sizes zero n e = ground arith
ack_sizes (suc zero) n e = ground arith
ack_sizes (suc (suc d)) n e = cc

pub slots-IsWindow : (rank : ℕ) → IsWindow instant (slots_of rank) world
slots-IsWindow rank = record {
  size = refl;
  mine = refl;
  stored = λ d n e. (slot_sizes d n e).0;
  small = λ d n e. (slot_sizes d n e).1;
}

pub acks-IsWindow : (rank : ℕ) → IsWindow instant (acks_of rank) world
acks-IsWindow rank = record {
  size = refl;
  mine = refl;
  stored = λ d n e. (ack_sizes d n e).0;
  small = λ d n e. (ack_sizes d n e).1;
}

All-zero : (n : ℕ) → All {A = ℕ} (λ x. x ≡ 0) (replicate n 0)
All-zero zero = tt
All-zero (suc n) = (refl, All-zero n)

pub world-IsZeroed : IsZeroed instant link world
world-IsZeroed = record {
  slots_out_valid = slots-IsWindow 0;
  slots_in_valid = slots-IsWindow 1;
  acks_out_valid = acks-IsWindow 0;
  acks_in_valid = acks-IsWindow 1;
  slots_zero = All-zero 80;
  acks_zero = All-zero 1;
}
