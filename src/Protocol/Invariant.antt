-- ===== src/Protocol/Invariant.antt =====
-- What holds of a safe lane between calls.
use mpi_rma.Base.{ℕ, ◌+◌, ◌%◌, ◌≤◌, ◌<◌, ◌≡◌, List, length, get_elem?, take, some, pos, word_mod}
use mpi_rma.Mpi.{Mpi}
use mpi_rma.Crc.{Crc}
use mpi_rma.Window.Bounds.{IsWindow}
use mpi_rma.Ring.Types.{Lane}
use mpi_rma.Ring.Regions.{region}
use mpi_rma.Ring.Poll.Rounds.{Holds, IsVacant}
use mpi_rma.Ring.Poll.Drain.{tagged}
use mpi_rma.Protocol.{Link, Flow}

-- The slots hold the last `depth` payloads of the history, each under its sequence number; a slot
-- that no payload has reached is vacant.
pub record Stored (c : Crc) (lane : Lane) (memory : List ℕ) (history : List (List ℕ)) : Type 0 where
  pub held :
      (i : ℕ) (bytes : List ℕ)
      → get_elem? history i ≡ some bytes
      → length history ≤ i + lane.depth
      → Holds c lane (region lane (i % lane.depth) memory) (i + 1) bytes
  pub vacant : (p : ℕ) → length history ≤ p → p < lane.depth → IsVacant (region lane p memory)

pub record Inv (m : Mpi) (c : Crc) (k : Link) (f : Flow m) : Type 0 where
  pub slots_out_valid : IsWindow m k.slots_out f.world
  pub slots_in_valid : IsWindow m k.slots_in f.world
  pub acks_out_valid : IsWindow m k.acks_out f.world
  pub acks_in_valid : IsWindow m k.acks_in f.world
  pub counted : f.out.sent ≡ length f.history
  pub fresh : length f.history + 1 < word_mod
  pub cached : f.out.acked ≤ f.acked
  pub acked_seen : f.acked ≤ f.seen
  pub seen_sent : f.seen ≤ length f.history
  pub gated : length f.history ≤ f.acked + k.lane.depth
  pub agrees : get_elem? (m.memory k.acks_out.win k.source f.world) k.lane.ack ≡ some f.acked
  pub stored : Stored c k.lane (m.memory k.slots_out.win k.dest f.world) f.history
  pub delivered : f.inbox ≡ tagged (pos k.source) 0 (take f.seen f.history)
  pub clean : (f.lost ≡ 0) × (f.corrupt ≡ 0)
