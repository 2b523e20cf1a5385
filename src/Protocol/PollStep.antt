-- ===== src/Protocol/PollStep.antt =====
-- A poll keeps the invariant, and what it returns.
use mpi_rma.Base.{ℕ, ◌+◌, ◌≡◌, sym, ◌∙◌, ap, ap₂, arith, true}
use mpi_rma.Base.{
  List, ◌++◌, length, pos, take, drop, take-append-drop, length-drop, length-take, take_all,
}
use mpi_rma.Error.{ok}
use mpi_rma.Mpi.{Mpi}
use mpi_rma.Crc.{Crc}
use mpi_rma.Window.{local}
use mpi_rma.Ring.Poll.Drain.{tagged, tagged-append, advance, AreWaiting, IsDrained, drain_run}
use mpi_rma.Protocol.{Link, IsLink, Flow, receiving, call_poll, after_poll}
use mpi_rma.Protocol.Invariant.{Inv}
use mpi_rma.Protocol.Stored.{Stored-waiting, Stored-IsDrained}

module _ (m : Mpi) (c : Crc) {k : Link} (link : IsLink k) {f : Flow m} (inv : Inv m c k f) where
  open inv use {seen_sent, gated, acked_seen, fresh, delivered}

  abbrev unseen : List (List ℕ)
  unseen = drop f.seen f.history

  unseen_count : f.seen + length unseen ≡ length f.history
  unseen_count = omega (arith, length-drop f.seen f.history)

  same_memory : m.memory k.slots_out.win k.dest f.world ≡ local m k.slots_in f.world
  same_memory = ap₂ (λ win d. m.memory win d f.world) (sym link.same_slots) (sym link.at_dest)

  waiting : AreWaiting c k.lane (local m k.slots_in f.world) f.seen unseen
  waiting = rw (← same_memory) (
      Stored-waiting c link.placed (m.memory k.slots_out.win k.dest f.world) f.history
        (inv.slots_out_valid.stored k.dest k.slot_total link.slots_out_size) inv.stored f.seen
        (omega arith))

  drained : IsDrained c k.lane (local m k.slots_in f.world) (f.seen + length unseen)
  drained =
      rw (← same_memory, unseen_count)
        (Stored-IsDrained c link.placed (m.memory k.slots_out.win k.dest f.world) f.history
          (inv.slots_out_valid.stored k.dest k.slot_total link.slots_out_size) inv.stored)

  -- A poll of a safe lane returns `Ok` with every message sent and not yet seen, in order and
  -- intact, and leaves both counters alone: nothing is lost, corrupt or lapped.
  pub poll_outcome : call_poll m c k f ≡ (ok tt, advance (pos k.source) (receiving m f) unseen)
  poll_outcome =
      drain_run m c inv.slots_in_valid (rw (← link.at_dest) at link.slots_in_size) link.placed true
        (pos k.source) unseen k.lane.depth (receiving m f) (omega (arith, unseen_count))
        (omega (arith, unseen_count)) waiting drained

  inbox_next :
      f.inbox ++ tagged (pos k.source) f.seen unseen
      ≡ tagged (pos k.source) 0 (take (length f.history) f.history)
  inbox_next =
      let origin = pos k.source in
      let reached : 0 + length (take f.seen f.history) ≡ f.seen =
        omega (arith, length-take f.seen f.history) in
      let joined = rw reached at (tagged-append origin 0 (take f.seen f.history) unseen) in
      let all =
        take-append-drop f.seen f.history
        ∙ sym (take_all (length f.history) f.history (omega arith)) in
      rw delivered (sym joined ∙ ap (tagged origin 0) all)

  -- The cursor then stands at the last message sent, and the inbox holds them all.
  pub poll_inbox :
      ((after_poll m c k f).inbox ≡ tagged (pos k.source) 0 f.history)
      × ((after_poll m c k f).seen ≡ length f.history)
  poll_inbox = (
    ap (λ r. r.1.messages) poll_outcome
        ∙ inbox_next
        ∙ ap (tagged (pos k.source) 0) (take_all (length f.history) f.history (omega arith)),
    ap (λ r. r.1.seen) poll_outcome ∙ unseen_count,
  )

  pub poll-Inv : Inv m c k (after_poll m c k f)
  poll-Inv =
      rw (poll_outcome, unseen_count)
        (record {
          slots_out_valid = inv.slots_out_valid;
          slots_in_valid = inv.slots_in_valid;
          acks_out_valid = inv.acks_out_valid;
          acks_in_valid = inv.acks_in_valid;
          counted = inv.counted;
          fresh = inv.fresh;
          cached = inv.cached;
          acked_seen = omega arith;
          seen_sent = omega arith;
          gated = gated;
          agrees = inv.agrees;
          stored = inv.stored;
          delivered = inbox_next;
          clean = inv.clean;
        })
