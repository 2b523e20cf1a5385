-- ===== src/Protocol/Network/Whole.antt =====
-- A ring as `new` leaves it on all its ranks: the tables that `layout` computed on each, and two
-- windows allocated from their lengths.
use mpi_rma.Base.{ℕ, ◌<◌, ◌≡◌, ◌≢◌, refl, ◌∙◌, ap, arith}
use mpi_rma.Base.{List, get_elem?, get_or, get_or-get_elem?, Option, none, some, Bool, true, false}
use mpi_rma.Base.{◌&&◌, ltb, as_usize, All}
use mpi_rma.Error.{ok}
use mpi_rma.Mpi.{Mpi}
use mpi_rma.Window.{Window}
use mpi_rma.Window.Bounds.{IsWindow}
use mpi_rma.Ring.Types.{Lane}
use mpi_rma.Ring.Regions.{IsPlaced}
use mpi_rma.Ring.Layout.{Tables, layout}
use mpi_rma.Ring.Layout.Sorting.{Spec}
use mpi_rma.Ring.Layout.Agreement.{Agree}
use mpi_rma.Ring.Layout.Placement.{LaidOut, layout-LaidOut}
use mpi_rma.Ring.Layout.Linked.{layout_links, in_step}
use mpi_rma.Protocol.{Link, IsLink}
use mpi_rma.Protocol.Delivery.{IsZeroed}

-- Each rank's tables and its view of the two windows, over one world.
pub record IsRing (m : Mpi) (ranks : ℕ) (config : List Spec) (tables : ℕ → Tables)
    (slots acks : ℕ → Window) (w : m.World) : Type 0 where
  pub laid : (r : ℕ) → r < ranks → layout ranks r config ≡ ok (tables r)
  pub one_slots : (a b : ℕ) → (slots a).win ≡ (slots b).win
  pub one_acks : (a b : ℕ) → (acks a).win ≡ (acks b).win
  pub two_windows : (a b : ℕ) → (acks a).win ≢ (slots b).win
  pub slots_rank : (r : ℕ) → as_usize (slots r).rank ≡ r
  pub acks_rank : (r : ℕ) → as_usize (acks r).rank ≡ r
  pub slots_lengths : (r : ℕ) → r < ranks → (slots r).lengths ≡ (tables r).lengths
  pub acks_lengths : (r : ℕ) → r < ranks → (acks r).lengths ≡ (tables r).ack_lengths
  pub slots_valid : (r : ℕ) → r < ranks → IsWindow m (slots r) w
  pub acks_valid : (r : ℕ) → r < ranks → IsWindow m (acks r) w
  pub slots_zero : (a b : ℕ) → b < ranks → All (λ x. x ≡ 0) (m.memory (slots a).win b w)
  pub acks_zero : (a b : ℕ) → b < ranks → All (λ x. x ≡ 0) (m.memory (acks a).win b w)

module _ (slots acks : ℕ → Window) where
  -- The two ends of a lane.
  abbrev pub two_ends : ℕ → ℕ → Lane → Link
  two_ends a b lane = record {
    lane = lane;
    source = a;
    dest = b;
    slots_out = slots a;
    slots_in = slots b;
    acks_out = acks a;
    acks_in = acks b;
    slot_total = get_or (slots a).lengths b 0;
    ack_total = get_or (acks a).lengths a 0;
  }

  abbrev link_from : ℕ → ℕ → Bool → Option (Option Lane) → Option Link
  link_from a b true (some (some lane)) = some (two_ends a b lane)
  link_from a b _ _ = none

  -- The lanes of a ring: those in the senders' tables.
  abbrev pub links_of : ℕ → (ℕ → Tables) → ℕ → ℕ → Option Link
  links_of ranks tables a b = link_from a b (ltb a ranks && ltb b ranks) (get_elem? (tables a).to b)

  link_from-inv :
      (a b : ℕ) (t : Bool) (o : Option (Option Lane)) (k : Link)
      → link_from a b t o ≡ some k
      → (t ≡ true) × (o ≡ some (some k.lane)) × (k ≡ two_ends a b k.lane)
  link_from-inv a b true (some (some lane)) k e =
      let same : two_ends a b lane ≡ k = cc in rw (← same) (refl, refl, refl)
  link_from-inv a b true (some none) k e = cc
  link_from-inv a b true none k e = cc
  link_from-inv a b false o k e = cc

module _ (m : Mpi) (ranks : ℕ) (config : List Spec) (tables : ℕ → Tables) (slots acks : ℕ → Window)
    (w : m.World) (ring : IsRing m ranks config tables slots acks w) where
  abbrev pub links : ℕ → ℕ → Option Link
  links = links_of slots acks ranks tables

  -- What a lane of the ring is.
  pub record Member (a b : ℕ) (k : Link) : Type 0 where
    pub from_rank : a < ranks
    pub to_rank : b < ranks
    pub entry : get_elem? (tables a).to b ≡ some (some k.lane)
    pub shape : k ≡ two_ends slots acks a b k.lane

  pub links-Member : (a b : ℕ) (k : Link) → links a b ≡ some k → Member a b k
  links-Member a b k e =
      let (t, o, s) =
        link_from-inv slots acks a b (ltb a ranks && ltb b ranks) (get_elem? (tables a).to b) k e in
      record { from_rank = ground (arith, t); to_rank = ground (arith, t); entry = o; shape = s }

  module _ (a b : ℕ) (ha : a < ranks) (hb : b < ranks) (lane : Lane)
      (entry : get_elem? (tables a).to b ≡ some (some lane)) where
    abbrev pub k : Link
    k = two_ends slots acks a b lane

    pub receiver : LaidOut b (tables b)
    receiver = layout-LaidOut ranks b config (tables b) hb (ring.laid b hb)

    pub sender : LaidOut a (tables a)
    sender = layout-LaidOut ranks a config (tables a) ha (ring.laid a ha)

    agreed : Agree ranks a b (tables a) (tables b)
    agreed = in_step ranks a b ha hb config (tables a) (tables b) (ring.laid a ha) (ring.laid b hb)

    agreed' : Agree ranks b a (tables b) (tables a)
    agreed' = in_step ranks b a hb ha config (tables b) (tables a) (ring.laid b hb) (ring.laid a ha)

    pub slots_there : get_elem? (slots b).lengths b ≡ some receiver.total
    slots_there = ap (λ l. get_elem? l b) (ring.slots_lengths b hb) ∙ receiver.reaches

    pub slots_here : get_elem? (slots a).lengths b ≡ some receiver.total
    slots_here =
        ap (λ l. get_elem? l b) (ring.slots_lengths a ha ∙ agreed.lengths) ∙ receiver.reaches

    acks_here : get_elem? (acks a).lengths a ≡ some sender.count
    acks_here = ap (λ l. get_elem? l a) (ring.acks_lengths a ha) ∙ sender.counts

    acks_there : get_elem? (acks b).lengths a ≡ some sender.count
    acks_there =
        ap (λ l. get_elem? l a) (ring.acks_lengths b hb ∙ agreed'.ack_lengths) ∙ sender.counts

    pub slot_total : get_or (slots a).lengths b 0 ≡ receiver.total
    slot_total = get_or-get_elem? (slots a).lengths b receiver.total 0 slots_here

    ack_total : get_or (acks a).lengths a 0 ≡ sender.count
    ack_total = get_or-get_elem? (acks a).lengths a sender.count 0 acks_here

    pub joined :
        (get_elem? (tables b).from a ≡ some (some lane))
        × IsPlaced lane receiver.total
        × (lane.ack < sender.count)
    joined =
        layout_links ranks a b ha hb config (tables a) (tables b) (ring.laid a ha) (ring.laid b hb)
          lane receiver.total sender.count entry receiver.reaches sender.counts
          ((ring.slots_valid b hb).small b receiver.total slots_there)

    pub two_ends-IsLink : IsLink k
    two_ends-IsLink = record {
      placed = rw slot_total joined.1;
      inside = rw ack_total joined.2;
      same_slots = ring.one_slots b a;
      same_acks = ring.one_acks b a;
      apart = ring.two_windows a a;
      at_dest = ring.slots_rank b;
      at_source = ring.acks_rank a;
      slots_out_size = rw slot_total slots_here;
      slots_in_size = rw slot_total slots_there;
      acks_out_size = rw ack_total acks_here;
      acks_in_size = rw ack_total acks_there;
    }

    pub two_ends-IsZeroed : IsZeroed m k w
    two_ends-IsZeroed = record {
      slots_out_valid = ring.slots_valid a ha;
      slots_in_valid = ring.slots_valid b hb;
      acks_out_valid = ring.acks_valid a ha;
      acks_in_valid = ring.acks_valid b hb;
      slots_zero = ring.slots_zero a b hb;
      acks_zero = ring.acks_zero a a ha;
    }
