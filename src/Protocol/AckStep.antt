-- ===== src/Protocol/AckStep.antt =====
-- An acknowledgement keeps the invariant, and what it returns.
use mpi_rma.Base.{ℕ, ◌≤◌, ◌<◌, ◌≡◌, ◌≢◌, ◌⊎◌, ◌↔◌, refl, sym, ◌∙◌, ap, arith, inl}
use mpi_rma.Base.{get_elem?, pos, leb, max, if◌then◌else◌}
use mpi_rma.Error.{Error, ok, err}
use mpi_rma.Mpi.{Mpi, Laws, Reliable}
use mpi_rma.Crc.{Crc}
use mpi_rma.Window.{Window}
use mpi_rma.Window.Bounds.{IsWindow}
use mpi_rma.Ring.Ack.Counter.{Acknowledged, ack_lane_lem}
use mpi_rma.Protocol.{Link, IsLink, Flow, call_ack, after_ack}
use mpi_rma.Protocol.Invariant.{Inv}

module _ (m : Mpi) (laws : Laws m) (reliable : Reliable m) (c : Crc) {k : Link} (link : IsLink k)
    {f : Flow m} (inv : Inv m c k f) (sequence : ℕ) where
  open inv use {seen_sent, acked_seen, gated, cached}

  done :
      Acknowledged m k.acks_in k.lane
        (pos k.source)
        k.source
        f.world
        f.seen
        f.acked
        sequence
        (call_ack m c k sequence f)
  done =
      ack_lane_lem m laws reliable k.lane (pos k.source) k.source refl f.world inv.acks_in_valid
        link.acks_in_size link.inside f.seen f.acked sequence acked_seen (omega (arith, inv.fresh))
        f.acked (rw (← link.same_acks) at inv.agrees) refl

  -- `ack` returns `Ok` exactly for a sequence that was received, and otherwise names the last one
  -- received: the counter never diverges.
  pub ack_outcome :
      let r = call_ack m c k sequence f in
      ((r.0 ≡ ok tt) ↔ (sequence ≤ f.seen))
      × ((r.0 ≡ err (Error.ack (pos k.source) sequence f.seen)) ↔ (f.seen < sequence))
  ack_outcome = (done.accepts, done.refuses)

  -- The record moves up to an accepted sequence, and never back.
  pub ack_moves :
      (call_ack m c k sequence f).1
      ≡ (if leb sequence f.seen then max f.acked sequence else f.acked)
  ack_moves = done.record_moves

  acked_next : (f.acked ≤ (call_ack m c k sequence f).1) × ((call_ack m c k sequence f).1 ≤ f.seen)
  acked_next = let e = done.record_moves in ground (arith, e)

  -- An acknowledgement of all that was received moves the record up to it.
  pub ack_all : sequence ≡ f.seen → (after_ack m c k sequence f).acked ≡ f.seen
  ack_all all = let e = done.record_moves in ground (arith, e)

  slots_kept :
      m.memory k.slots_out.win k.dest (call_ack m c k sequence f).2
      ≡ m.memory k.slots_out.win k.dest f.world
  slots_kept =
      done.elsewhere k.slots_out.win k.dest (inl (λ e. link.apart (sym link.same_acks ∙ sym e)))

  pub ack-Inv : Inv m c k (after_ack m c k sequence f)
  ack-Inv = record {
    slots_out_valid = done.windows k.slots_out inv.slots_out_valid;
    slots_in_valid = done.windows k.slots_in inv.slots_in_valid;
    acks_out_valid = done.windows k.acks_out inv.acks_out_valid;
    acks_in_valid = done.windows k.acks_in inv.acks_in_valid;
    counted = inv.counted;
    fresh = inv.fresh;
    cached = omega (arith, acked_next);
    acked_seen = acked_next.1;
    seen_sent = seen_sent;
    gated = omega (arith, acked_next);
    agrees =
        ap (λ win. get_elem? (m.memory win k.source (call_ack m c k sequence f).2) k.lane.ack)
          (sym link.same_acks)
        ∙ done.counter_agrees;
    stored = rw slots_kept inv.stored;
    delivered = inv.delivered;
    clean = inv.clean;
  }

  -- What a call does to the windows: at most its own counter at the source changes.
  pub ack_writes :
      let w' = (after_ack m c k sequence f).world in
      ((t : Window) → IsWindow m t f.world → IsWindow m t w')
      × ((win d : ℕ)
          → (win ≢ k.acks_out.win) ⊎ (d ≢ k.source)
          → m.memory win d w' ≡ m.memory win d f.world)
      × ((i : ℕ)
          → k.lane.ack ≢ i
          → get_elem? (m.memory k.acks_out.win k.source w') i
            ≡ get_elem? (m.memory k.acks_out.win k.source f.world) i)
  ack_writes = rw (← link.same_acks) (done.windows, done.elsewhere, done.others_kept)
