-- ===== src/Protocol.antt =====
-- One safe lane, its sender and its receiver, as a state machine: the calls `send`, `poll` and
-- `ack` of src/ring.rs on that lane, interleaved in any order. A call is one step. `history` and
-- `inbox` are what the caller handed in and was given, and no code reads them.
pub mod Invariant
pub mod Stored
pub mod SendStep
pub mod PollStep
pub mod AckStep
pub mod Delivery
pub mod Fifo
pub mod Refinement
pub mod Progress
pub mod Network
use mpi_rma.Base.{
  ℕ, ◌+◌, ◌≤◌, ◌<◌, ◌≡◌, ◌≢◌, List, [], ◌∷◌, ◌++◌, some, true, ℤ, pos, as_usize, length, get_elem?,
  word_mod,
}
use mpi_rma.Error.{Result, ok}
use mpi_rma.Mpi.{Mpi}
use mpi_rma.Crc.{Crc}
use mpi_rma.Window.{Window}
use mpi_rma.Ring.Types.{Message, Lane, Outgoing}
use mpi_rma.Ring.Send.{Sending, send_lane}
use mpi_rma.Ring.Poll.{Cursor, drain}
use mpi_rma.Ring.Ack.{ack_lane}
use mpi_rma.Ring.Regions.{IsPlaced}

-- The two ends: the lane, the ranks, and each rank's view of the two windows.
pub record Link : Type 0 where
  pub lane : Lane
  pub source : ℕ
  pub dest : ℕ
  pub slots_out : Window
  pub slots_in : Window
  pub acks_out : Window
  pub acks_in : Window
  pub slot_total : ℕ
  pub ack_total : ℕ

-- What `Ring::new` sets up for a lane (`Ring/Layout`): both ranks see the same windows, the lane
-- lies in the destination's memory and its counter in the source's.
pub record IsLink (k : Link) : Type 0 where
  pub placed : IsPlaced k.lane k.slot_total
  pub inside : k.lane.ack < k.ack_total
  pub same_slots : k.slots_in.win ≡ k.slots_out.win
  pub same_acks : k.acks_in.win ≡ k.acks_out.win
  pub apart : k.acks_out.win ≢ k.slots_out.win
  pub at_dest : as_usize k.slots_in.rank ≡ k.dest
  pub at_source : as_usize k.acks_out.rank ≡ k.source
  pub slots_out_size : get_elem? k.slots_out.lengths k.dest ≡ some k.slot_total
  pub slots_in_size : get_elem? k.slots_in.lengths k.dest ≡ some k.slot_total
  pub acks_out_size : get_elem? k.acks_out.lengths k.source ≡ some k.ack_total
  pub acks_in_size : get_elem? k.acks_in.lengths k.source ≡ some k.ack_total

module _ (m : Mpi) where
  pub record Flow : Type 0 where
    pub out : Outgoing
    pub refused : ℕ
    pub world : m.World
    pub seen : ℕ
    pub acked : ℕ
    pub lost : ℕ
    pub corrupt : ℕ
    pub history : List (List ℕ)
    pub inbox : List Message

  abbrev pub sending : Flow → Sending m
  sending f = record { out = f.out; refused = f.refused; world = f.world }

  abbrev pub receiving : Flow → Cursor
  receiving f = record { seen = f.seen; lost = f.lost; corrupt = f.corrupt; messages = f.inbox }

  module _ (c : Crc) (k : Link) where
    abbrev pub call_send : List ℕ → Flow → Result ℕ × Sending m
    call_send bytes f =
        send_lane m c k.slots_out (some k.acks_out) k.lane (pos k.dest) bytes (sending f)

    abbrev pub call_poll : Flow → Result (Unit {0}) × Cursor
    call_poll f = drain m c k.slots_in f.world true k.lane (pos k.source) k.lane.depth (receiving f)

    abbrev pub call_ack : ℕ → Flow → Result (Unit {0}) × ℕ × m.World
    call_ack sequence f =
        ack_lane m k.acks_in k.lane (pos k.source) (ok f.seen) f.acked sequence f.world

    abbrev with_sending : Flow → Sending m → Flow
    with_sending f s = record f { out = s.out; refused = s.refused; world = s.world }

    -- A payload enters the history when its send returned `Ok`.
    abbrev pub sent_to : Flow → List ℕ → Result ℕ × Sending m → Flow
    sent_to f bytes (ok n, s) = record (with_sending f s) { history = f.history ++ bytes ∷ [] }
    sent_to f bytes (_, s) = with_sending f s

    abbrev pub after_send : List ℕ → Flow → Flow
    after_send bytes f = sent_to f bytes (call_send bytes f)

    abbrev pub after_poll : Flow → Flow
    after_poll f =
        let s = (call_poll f).1 in
        record f { seen = s.seen; lost = s.lost; corrupt = s.corrupt; inbox = s.messages }

    abbrev pub after_ack : ℕ → Flow → Flow
    after_ack sequence f = let r = call_ack sequence f in record f { acked = r.1; world = r.2 }

    -- A call by either end, whatever it returns. The sequence numbers are not used up.
    pub data Step (f : Flow) : Flow → Type 0 where
      sends :
          (bytes : List ℕ) {g : Flow}
          → length bytes ≤ k.lane.capacity
          → length f.history + 2 < word_mod
          → g ≡ after_send bytes f
          → Step f g
      polls : {g : Flow} → g ≡ after_poll f → Step f g
      acks : (sequence : ℕ) {g : Flow} → g ≡ after_ack sequence f → Step f g

    pub data Reach (f : Flow) : Flow → Type 0 where
      here : Reach f f
      next : {g h : Flow} → Reach f g → Step g h → Reach f h
