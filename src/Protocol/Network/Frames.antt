-- ===== src/Protocol/Network/Frames.antt =====
-- A call on one lane leaves every other lane of the ring as it was.
use mpi_rma.Base.{ℕ, ◌+◌, ◌*◌, ◌%◌, ◌≤◌, ◌<◌, ◌≡◌, ◌⊎◌, refl, ◌∙◌, ap, arith, inl, inr, some}
use mpi_rma.Base.{List, length, get_elem?, get_elem?-lt, overwrite, slice-overwrite_disjoint}
use native.Mathlib.Decide.{ℕ_discrete}
use native.Mathlib.Nat.{mod-lt}
use mpi_rma.Mpi.{Mpi, Laws, Reliable}
use mpi_rma.Crc.{Crc}
use mpi_rma.Window.{Window}
use mpi_rma.Window.Bounds.{IsWindow}
use mpi_rma.Ring.Types.{Lane}
use mpi_rma.Ring.Send.{slot_at}
use mpi_rma.Ring.Regions.{IsPlaced, region, slot_at-eq}
use mpi_rma.Ring.Layout.Placement.{Apart}
use mpi_rma.Protocol.{Link, IsLink, Flow, Step, sends, polls, acks, after_ack}
use mpi_rma.Protocol.Invariant.{Inv}
use mpi_rma.Protocol.SendStep.{Writes, send-Writes}
use mpi_rma.Protocol.AckStep.{ack_writes}
use mpi_rma.Protocol.Network.{AreApart}

-- What a lane reads of the world is as before.
pub record Spares (m : Mpi) (j : Link) (w w' : m.World) : Type 0 where
  pub windows : (t : Window) → IsWindow m t w → IsWindow m t w'
  pub slots :
      (p : ℕ)
      → p < j.lane.depth
      → region j.lane p (m.memory j.slots_out.win j.dest w')
        ≡ region j.lane p (m.memory j.slots_out.win j.dest w)
  pub counter :
      get_elem? (m.memory j.acks_out.win j.source w') j.lane.ack
      ≡ get_elem? (m.memory j.acks_out.win j.source w) j.lane.ack

slot_end :
    {lane : Lane} {total : ℕ} (v : IsPlaced lane total) (p : ℕ)
    → p < lane.depth
    → (lane.offset ≤ slot_at lane p)
      × (slot_at lane p + lane.slot ≤ lane.offset + lane.depth * lane.slot)
slot_end {lane} v p h =
    let e = slot_at-eq v p h in
    let room : p * lane.slot + lane.slot ≤ lane.depth * lane.slot = grind arith in
    (omega arith, omega arith)

-- A write to a slot of one lane misses every slot of a lane that lies apart from it.
region-overwrite_away :
    {lane other : Lane} {total total' : ℕ} (v : IsPlaced lane total) (u : IsPlaced other total')
    → Apart lane other
    → (memory image : List ℕ) (p q : ℕ) → length image ≡ lane.slot
    → p < lane.depth
    → q < other.depth
    → region other q (overwrite memory (slot_at lane p) image) ≡ region other q memory
region-overwrite_away {lane} {other} v u apart memory image p q full h g =
    let a = slot_end v p h in
    let b = slot_end u q g in
    let away : (slot_at other q + other.slot ≤ slot_at lane p)
        ⊎ (slot_at lane p + length image ≤ slot_at other q) =
      elim apart [ inl l ↦ inr (omega arith) | inr l ↦ inl (omega arith) ] in
    slice-overwrite_disjoint memory (slot_at lane p) (slot_at other q) other.slot image away

module _ (m : Mpi) {k j : Link} (link : IsLink k) (other : IsLink j) (apart : AreApart k j)
    {w w' : m.World} where
  Writes-slots :
      Writes m k w w'
      → (p : ℕ) → p < j.lane.depth
      → region j.lane p (m.memory j.slots_out.win j.dest w')
        ≡ region j.lane p (m.memory j.slots_out.win j.dest w)
  Writes-slots s p h = elim apart.slots [
    | inl ne ↦ ap (region j.lane p) (s.elsewhere j.slots_out.win j.dest (inl ne))
    | inr (inl ne) ↦ ap (region j.lane p) (s.elsewhere j.slots_out.win j.dest (inr ne))
    | inr (inr away) ↦ elim (ℕ_discrete j.slots_out.win k.slots_out.win) [
      | no ne ↦ ap (region j.lane p) (s.elsewhere j.slots_out.win j.dest (inl ne))
      | yes win ↦ elim (ℕ_discrete j.dest k.dest) [
        | no ne ↦ ap (region j.lane p) (s.elsewhere j.slots_out.win j.dest (inr ne))
        | yes rank ↦
            rw (win, rank)
              (elim s.slots [
                | inl same ↦ ap (region j.lane p) same
                | inr (q, image, inside, full, e) ↦
                    ap (region j.lane p) e
                    ∙ region-overwrite_away link.placed other.placed away
                        (m.memory k.slots_out.win k.dest w) image q p full inside h
              ])
      ]
    ]
  ]

  Writes-Spares : Writes m k w w' → Spares m j w w'
  Writes-Spares s = record {
    windows = s.windows;
    slots = Writes-slots s;
    counter =
        ap (λ xs. get_elem? xs j.lane.ack)
          (s.elsewhere j.acks_out.win j.source (inl apart.slots_no_counter));
  }

module _ (m : Mpi) (laws : Laws m) (reliable : Reliable m) (c : Crc) {k j : Link} (link : IsLink k)
    (other : IsLink j) (apart : AreApart k j) {f : Flow m} (inv : Inv m c k f) where
  ack-Spares : (sequence : ℕ) → Spares m j f.world (after_ack m c k sequence f).world
  ack-Spares sequence =
      let (kept, elsewhere, others) = ack_writes m laws reliable c link inv sequence in
      record {
        windows = kept;
        slots = λ p h.
            ap (region j.lane p) (elsewhere j.slots_out.win j.dest (inl apart.counters_no_slot));
        counter = elim apart.separate [
          | inl ne ↦ ap (λ xs. get_elem? xs j.lane.ack) (elsewhere j.acks_out.win j.source (inr ne))
          | inr ne ↦ elim (ℕ_discrete j.acks_out.win k.acks_out.win) [
            | no away ↦
                ap (λ xs. get_elem? xs j.lane.ack) (elsewhere j.acks_out.win j.source (inl away))
            | yes win ↦ elim (ℕ_discrete j.source k.source) [
              | no away ↦
                  ap (λ xs. get_elem? xs j.lane.ack) (elsewhere j.acks_out.win j.source (inr away))
              | yes rank ↦ rw (win, rank) (others j.lane.ack ne)
            ]
          ]
        ];
      }

  -- A call on lane `k` leaves what lane `j` reads as it was.
  pub Step-Spares : {g : Flow m} → Step m c k f g → Spares m j f.world g.world
  Step-Spares (sends bytes fits room e) =
      rw e
        (Writes-Spares m link other apart (send-Writes m laws reliable c link inv bytes fits room))
  Step-Spares (polls e) = rw e (record { windows = λ t v. v; slots = λ p h. refl; counter = refl })
  Step-Spares (acks sequence e) = rw e (ack-Spares sequence)

-- A lane's invariant survives a change of the world that spares it.
pub Spares-Inv :
    (m : Mpi) (c : Crc) (j : Link) (f : Flow m) (w : m.World)
    → Spares m j f.world w
    → Inv m c j f
    → Inv m c j (record f { world = w })
Spares-Inv m c j f w s inv = record {
  slots_out_valid = s.windows j.slots_out inv.slots_out_valid;
  slots_in_valid = s.windows j.slots_in inv.slots_in_valid;
  acks_out_valid = s.windows j.acks_out inv.acks_out_valid;
  acks_in_valid = s.windows j.acks_in inv.acks_in_valid;
  counted = inv.counted;
  fresh = inv.fresh;
  cached = inv.cached;
  acked_seen = inv.acked_seen;
  seen_sent = inv.seen_sent;
  gated = inv.gated;
  agrees = s.counter ∙ inv.agrees;
  stored = record {
    held = λ i bytes e room.
        rw (s.slots (i % j.lane.depth) (in_lane i bytes e room)) (inv.stored.held i bytes e room);
    vacant = λ p past h. rw (s.slots p h) (inv.stored.vacant p past h);
  };
  delivered = inv.delivered;
  clean = inv.clean;
}
  where
    in_lane :
        (i : ℕ) (bytes : List ℕ)
        → get_elem? f.history i ≡ some bytes
        → length f.history ≤ i + j.lane.depth
        → i % j.lane.depth < j.lane.depth
    in_lane i bytes e room = mod-lt i (omega (arith, get_elem?-lt f.history i bytes e))
