-- ===== src/Ring/Layout/Measured.antt =====
-- What a round of the layout's loop computes.
use mpi_rma.Base.{ℕ, ◌+◌, ◌*◌, ◌≤◌, ◌≡◌, arith, some, List, inl, inr}
use mpi_rma.Base.{get_elem?, as_usize, i32_max}
use mpi_rma.Base.{Option-cases}
use mpi_rma.Error.{ok}
use mpi_rma.Ring.Types.{word, header}
use mpi_rma.Ring.Layout.Sorting.{Spec}
use mpi_rma.Ring.Layout.{Measure, slot_size, measure}

abbrev pub target_of : Spec → ℕ
target_of s = as_usize s.destination

abbrev pub source_of : Spec → ℕ
source_of s = as_usize s.source

-- What a round of the loop that goes on has computed.
pub record Measured (s : Spec) (lengths acks : List ℕ) (e : Measure) : Type 0 where
  pub at : get_elem? lengths (target_of s) ≡ some e.lane.offset
  pub counter : get_elem? acks (source_of s) ≡ some e.lane.ack
  pub slot : e.lane.slot ≡ s.capacity + (header + word)
  pub small : e.lane.slot ≤ i32_max
  pub depth : e.lane.depth ≡ s.depth
  pub capacity : e.lane.capacity ≡ s.capacity
  pub total : e.total ≡ e.lane.offset + s.depth * e.lane.slot
  pub next : e.next_ack ≡ e.lane.ack + 1

pub measure_inv :
    (s : Spec) (lengths acks : List ℕ) (e : Measure)
    → measure s lengths acks ≡ ok e
    → Measured s lengths acks e
unfolding measure slot_size
measure_inv s lengths acks e h = elim (Option-cases (get_elem? lengths (target_of s))) [
  | inl away ↦ absurd (ground (arith, away))
  | inr (offset, there) ↦ elim (Option-cases (get_elem? acks (source_of s))) [
    | inl away ↦ absurd (ground (arith, away, there))
    | inr (ack, here) ↦ ground (arith, here, there)
  ]
]
