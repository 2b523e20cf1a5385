-- ===== src/Protocol/Network/Runs.antt =====
-- Every order of calls on all lanes of a ring keeps every lane's promise.
use mpi_rma.Base.{ℕ, ◌+◌, ◌≤◌, ◌≡◌, ◌≢◌, ◌⊎◌, ap, arith, inl, inr, some}
use mpi_rma.Base.{length, take, pos, Option, true, false, ◌==◌, ◌&&◌}
use mpi_rma.Base.{if◌then◌else◌}
use native.Mathlib.Decide.{ℕ_discrete}
use mpi_rma.Error.{ok}
use mpi_rma.Mpi.{Mpi, Laws, Reliable}
use mpi_rma.Crc.{Crc}
use mpi_rma.Ring.Poll.Drain.{tagged}
use mpi_rma.Protocol.{Link, IsLink, Flow, Step, call_poll, after_poll}
use mpi_rma.Protocol.Invariant.{Inv}
use mpi_rma.Protocol.PollStep.{poll_outcome, poll_inbox}
use mpi_rma.Protocol.Delivery.{start, start-Inv, Step-Inv, IsZeroed}
use mpi_rma.Protocol.Network.{
  AreApart, Net, NetStep, calls, NetReach, begin, then_call, NetInv, flow, with_flow,
}
use mpi_rma.Protocol.Network.Frames.{Spares-Inv, Step-Spares}

-- The lanes of a ring: each has its two ends, and no two share a slot or a counter.
pub record AreLanes (links : ℕ → ℕ → Option Link) : Type 0 where
  pub linked : (a b : ℕ) (k : Link) → links a b ≡ some k → IsLink k
  pub apart :
      (a b a' b' : ℕ) (k j : Link)
      → links a b ≡ some k
      → links a' b' ≡ some j
      → (a' ≢ a) ⊎ (b' ≢ b)
      → AreApart k j

-- What the receiver of a lane has: a prefix of the messages sent, each once, in order and intact;
-- at most `depth` of them are not acknowledged, none is lost or corrupt, and a poll brings the
-- rest.
pub record Delivers (m : Mpi) (c : Crc) (k : Link) (f : Flow m) : Type 0 where
  pub prefix : f.inbox ≡ tagged (pos k.source) 0 (take f.seen f.history)
  pub seen_sent : f.seen ≤ length f.history
  pub bounded : length f.history ≤ f.acked + k.lane.depth
  pub none_lost : f.lost ≡ 0
  pub none_corrupt : f.corrupt ≡ 0
  pub poll_ok : (call_poll m c k f).0 ≡ ok tt
  pub poll_all : (after_poll m c k f).inbox ≡ tagged (pos k.source) 0 f.history

-- Before the first call.
abbrev pub start_net : (m : Mpi) → m.World → Net m
start_net m w = record { world = w; flows = λ a b. start m w }

-- The state of every lane but the one that was called is as before, over the new world.
module _ (m : Mpi) (n : Net m) (a b : ℕ) (g : Flow m) where
  pub flow-with_flow_self : flow m (with_flow m n a b g) a b ≡ g
  flow-with_flow_self =
      let test : (a == a && b == b) ≡ true = ground arith in
      ap (λ t. record (if t then g else n.flows a b) { world = g.world }) test

  pub flow-with_flow_other :
      (a' b' : ℕ)
      → (a' ≢ a) ⊎ (b' ≢ b)
      → flow m (with_flow m n a b g) a' b' ≡ record (flow m n a' b') { world = g.world }
  flow-with_flow_other a' b' ne =
      let test : (a' == a && b' == b) ≡ false = ground arith in
      ap (λ t. record (if t then g else n.flows a' b') { world = g.world }) test

module _ (m : Mpi) (laws : Laws m) (reliable : Reliable m) (c : Crc) {links : ℕ → ℕ → Option Link}
    (lanes : AreLanes links) where
  module _ (n : Net m) (a b : ℕ) (k : Link) (g : Flow m) (here : links a b ≡ some k)
      (st : Step m c k (flow m n a b) g) (inv : NetInv m c links n) where
    own : Inv m c k (flow m n a b)
    own = inv.each a b k here

    called : Inv m c k (flow m (with_flow m n a b g) a b)
    called =
        rw (flow-with_flow_self m n a b g)
          (Step-Inv m laws reliable c (lanes.linked a b k here) st own)

    spared :
        (a' b' : ℕ) (j : Link)
        → links a' b' ≡ some j
        → (a' ≢ a) ⊎ (b' ≢ b)
        → Inv m c j (flow m (with_flow m n a b g) a' b')
    spared a' b' j there ne = rw (flow-with_flow_other m n a b g a' b' ne) (
        Spares-Inv m c j (flow m n a' b') g.world
          (Step-Spares m laws reliable c (lanes.linked a b k here) (lanes.linked a' b' j there)
            (lanes.apart a b a' b' k j here there ne) own st)
          (inv.each a' b' j there))

    with_flow-NetInv : NetInv m c links (with_flow m n a b g)
    with_flow-NetInv = record {
      each = λ a' b' j there. elim (ℕ_discrete a' a) [
        | no ne ↦ spared a' b' j there (inl ne)
        | yes same_a ↦ elim (ℕ_discrete b' b) [
          | no ne ↦ spared a' b' j there (inr ne)
          | yes same_b ↦
              let both : links a b ≡ some j = rw (same_a, same_b) at there in
              let same : k ≡ j = cc (here, both) in rw (same_a, same_b, ← same) called
        ]
      ];
    }

  -- With a library that keeps its laws and does not fail, on lanes that lie apart: a call on any
  -- lane (of a payload that fits, before the sequence numbers run out) keeps the invariant of every
  -- lane.
  pub NetStep-NetInv :
      {n n' : Net m} → NetStep m c links n n' → NetInv m c links n → NetInv m c links n'
  NetStep-NetInv {n} (calls a b k {g} here st e) inv = rw e (with_flow-NetInv n a b k g here st inv)

  NetReach-NetInv :
      {n n' : Net m} → NetInv m c links n → NetReach m c links n n' → NetInv m c links n'
  NetReach-NetInv inv begin = inv
  NetReach-NetInv inv (then_call r st) = NetStep-NetInv st (NetReach-NetInv inv r)

  pub start-NetInv :
      (w : m.World)
      → ((a b : ℕ) (k : Link) → links a b ≡ some k → IsZeroed m k w)
      → NetInv m c links (start_net m w)
  start-NetInv w zero = record {
    each = λ a b k here. start-Inv m c (lanes.linked a b k here) (zero a b k here);
  }

  -- After every order of calls on all lanes, each lane has what it was sent.
  pub NetReach-Delivers :
      (w : m.World)
      → ((a b : ℕ) (k : Link) → links a b ≡ some k → IsZeroed m k w)
      → {n : Net m} → NetReach m c links (start_net m w) n
      → (a b : ℕ) (k : Link) → links a b ≡ some k
      → Delivers m c k (flow m n a b)
  NetReach-Delivers w zero run a b k here =
      let inv = (NetReach-NetInv (start-NetInv w zero) run).each a b k here in
      let link = lanes.linked a b k here in
      record {
        prefix = inv.delivered;
        seen_sent = inv.seen_sent;
        bounded = inv.gated;
        none_lost = inv.clean.0;
        none_corrupt = inv.clean.1;
        poll_ok = ap (λ r. r.0) (poll_outcome m c link inv);
        poll_all = (poll_inbox m c link inv).0;
      }
