-- ===== src/Protocol/Network.antt =====
-- All lanes of a ring at once, over one world. A lane is named by its two ranks. A call on one lane
-- works on that lane's state and on the windows, which all lanes share.
pub mod Frames
pub mod Runs
pub mod Whole
pub mod Delivered
use mpi_rma.Base.{ℕ, ◌+◌, ◌*◌, ◌≤◌, ◌≡◌, ◌≢◌, ◌⊎◌, Bool, ◌&&◌, Option, some, ◌==◌}
use mpi_rma.Base.{if◌then◌else◌}
use mpi_rma.Mpi.{Mpi}
use mpi_rma.Crc.{Crc}
use mpi_rma.Protocol.{Link, Flow, Step}
use mpi_rma.Protocol.Invariant.{Inv}
use mpi_rma.Ring.Layout.Placement.{Apart}

-- Two lanes that share no byte of a slot and no counter.
pub record AreApart (k j : Link) : Type 0 where
  pub slots : (j.slots_out.win ≢ k.slots_out.win) ⊎ ((j.dest ≢ k.dest) ⊎ Apart k.lane j.lane)
  pub separate : (j.source ≢ k.source) ⊎ (k.lane.ack ≢ j.lane.ack)
  pub slots_no_counter : j.acks_out.win ≢ k.slots_out.win
  pub counters_no_slot : j.slots_out.win ≢ k.acks_out.win

module _ (m : Mpi) where
  -- The state of the lane from `a` to `b` is `flows a b`, with the shared world in place of its
  -- own.
  pub record Net : Type 0 where
    pub world : m.World
    pub flows : ℕ → ℕ → Flow m

  abbrev pub flow : Net → ℕ → ℕ → Flow m
  flow n a b = record (n.flows a b) { world = n.world }

  abbrev pub with_flow : Net → ℕ → ℕ → Flow m → Net
  with_flow n a b g = record {
    world = g.world;
    flows = λ a' b'. if a' == a && b' == b then g else n.flows a' b';
  }

  module _ (c : Crc) (links : ℕ → ℕ → Option Link) where
    -- A call on any one lane.
    pub data NetStep (n : Net) : Net → Type 0 where
      calls :
          (a b : ℕ) (k : Link) {g : Flow m} {n' : Net}
          → links a b ≡ some k
          → Step m c k (flow n a b) g
          → n' ≡ with_flow n a b g
          → NetStep n n'

    pub data NetReach (n : Net) : Net → Type 0 where
      begin : NetReach n n
      then_call : {n' n'' : Net} → NetReach n n' → NetStep n' n'' → NetReach n n''

    -- Every lane keeps its own invariant.
    pub record NetInv (n : Net) : Type 0 where
      pub each : (a b : ℕ) (k : Link) → links a b ≡ some k → Inv m c k (flow n a b)
