-- ===== src/Ring/Layout.antt =====
-- src/ring.rs: what `new` computes from the lane list before and after it allocates the windows,
-- apart from the collective calls (`Ring/Construct`).
pub mod Sorting
pub mod Agreement
pub mod Measured
pub mod Placement
pub mod Linked
use mpi_rma.Base.{
  ℕ, ◌+◌, Bool, true, false, not, ◌&&◌, ◌||◌, Option, none, some, List, [], ◌∷◌, map, ℤ, pos,
}
use mpi_rma.Base.{
  length, get_elem?, set, replicate, ltb, leb, ◌==◌, if◌then◌else◌, ltb_ℤ, eqb_ℤ, as_usize,
}
use mpi_rma.Base.{checked_add, checked_mul, i32_max}
use mpi_rma.Error.{
  Result, ok, err, panic, guard, ok_or, or_panic, ring, size_overflow, count_overflow, ◌>>=◌, ◌>>◌,
}
use mpi_rma.Ring.Types.{word, header, Lane}
use Sorting.{Spec}

-- `config.windows(2)`: sorted, so equal endpoints stand side by side.
unfoldable pub has_repeat : List Spec → Bool
has_repeat [] = false
has_repeat (a ∷ []) = false
has_repeat (a ∷ b ∷ rest) =
    (eqb_ℤ a.source b.source && eqb_ℤ a.destination b.destination) || has_repeat (b ∷ rest)

-- The checks on one lane, in their order.
unfoldable pub check_spec : ℕ → Spec → Result (Unit {0})
check_spec ranks s =
    if ltb_ℤ s.source (pos 0)
      || ltb_ℤ s.destination (pos 0)
      || leb ranks (as_usize s.source)
      || leb ranks (as_usize s.destination)
    then err (ring "lane rank is outside the communicator")
    else if eqb_ℤ s.source s.destination
    then err (ring "self lanes are not transport")
    else if s.depth == 0
    then err (ring "depth must be positive")
    else if s.capacity == 0
    then err (ring "capacity must be positive")
    else ok tt

unfoldable pub check_specs : ℕ → List Spec → Result (Unit {0})
unfolding check_spec
check_specs ranks [] = ok tt
check_specs ranks (s ∷ rest) = check_spec ranks s >> check_specs ranks rest

-- The four vectors that the layout loop fills.
pub record Tables : Type 0 where
  pub lengths : List ℕ
  pub ack_lengths : List ℕ
  pub to : List (Option Lane)
  pub from : List (Option Lane)

unfoldable pub empty_tables : ℕ → Tables
empty_tables ranks = record {
  lengths = replicate ranks 0;
  ack_lengths = replicate ranks 0;
  to = replicate ranks none;
  from = replicate ranks none;
}

-- `slot`: the bytes of one slot, if an `i32` count can name them.
unfoldable pub slot_size : Spec → Result ℕ
slot_size s = do
  slot ← ok_or (checked_add s.capacity (header + word)) size_overflow
  guard (not (ltb i32_max slot)) count_overflow
  ok slot

abbrev pub lane_of : Spec → (slot offset ack : ℕ) → Lane
lane_of s slot offset ack = record {
  offset = offset;
  depth = s.depth;
  capacity = s.capacity;
  slot = slot;
  ack = ack;
}

-- What one round computes from the lengths so far. It is the same on every rank.
pub record Measure : Type 0 where
  pub lane : Lane
  pub total : ℕ
  pub next_ack : ℕ

unfoldable pub measure : Spec → (lengths ack_lengths : List ℕ) → Result Measure
unfolding slot_size
measure s lengths ack_lengths = do
  slot ← slot_size s
  bytes ← ok_or (checked_mul s.depth slot) size_overflow
  offset ← or_panic (get_elem? lengths (as_usize s.destination))
  total ← ok_or (checked_add offset bytes) size_overflow
  ack ← or_panic (get_elem? ack_lengths (as_usize s.source))
  next ← ok_or (checked_add ack 1) size_overflow
  ok (record { lane = lane_of s slot offset ack; total = total; next_ack = next })

-- The lane goes into the tables of its two ends only.
abbrev pub record_lane : ℕ → Spec → Tables → Measure → Tables
record_lane me s t e =
    let source = as_usize s.source in
    let target = as_usize s.destination in
    record {
      lengths = set t.lengths target e.total;
      ack_lengths = set t.ack_lengths source e.next_ack;
      to = if source == me then set t.to target (some e.lane) else t.to;
      from = if target == me then set t.from source (some e.lane) else t.from;
    }

-- One round of the loop, on rank `me`.
unfoldable pub place : ℕ → Spec → Tables → Result Tables
place me s t = measure s t.lengths t.ack_lengths >>= λ e. ok (record_lane me s t e)

unfoldable pub place_all : ℕ → List Spec → Tables → Result Tables
place_all me [] t = ok t
place_all me (s ∷ rest) t = place me s t >>= place_all me rest

-- The whole layout of a list that was sorted and agreed on.
unfoldable pub layout : (ranks me : ℕ) → List Spec → Result Tables
unfolding has_repeat check_specs place_all empty_tables
layout ranks me config = do
  guard (not (has_repeat config)) (ring "a lane is configured twice")
  check_specs ranks config
  place_all me config (empty_tables ranks)

-- The sources of this rank's incoming lanes, before `new` sorts them.
unfoldable pub origins_of : ℤ → List Spec → List ℤ
origins_of rank [] = []
origins_of rank (s ∷ rest) =
    if eqb_ℤ s.destination rank then s.source ∷ origins_of rank rest else origins_of rank rest
