-- ===== src/Protocol/SendStep.antt =====
-- A send keeps the invariant, and what it returns.
use mpi_rma.Base.{
  ℕ, ◌+◌, ◌-◌, ◌%◌, ◌≤◌, ◌<◌, ◌≡◌, refl, sym, ◌∙◌, ap, arith, some, inl, inr, ◌⊎◌, ◌≢◌, word_mod,
}
use mpi_rma.Base.{List, [], ◌∷◌, ◌++◌, ◌↔◌, overwrite, length, pos, length-append, take-append_le}
use native.Mathlib.Decide.{dec_le}
use native.Mathlib.Nat.{mod-lt}
use mpi_rma.Error.{Result, ok, err, full}
use mpi_rma.Mpi.{Mpi, Laws, Reliable}
use mpi_rma.Crc.{Crc}
use mpi_rma.Window.{Window}
use mpi_rma.Window.Bounds.{IsWindow}
use mpi_rma.Ring.Image.RoundTrip.{length-build, inspect-build}
use mpi_rma.Ring.Send.{Sending, slot_at, gate, transmit, send_lane}
use mpi_rma.Ring.Send.Gate.{gate_tight}
use mpi_rma.Ring.Send.Transmit.{Transmitted, image, transmit_lem}
use mpi_rma.Ring.Poll.Rounds.{Holds}
use mpi_rma.Ring.Poll.Drain.{tagged}
use mpi_rma.Protocol.{Link, IsLink, Flow, sending, call_send, after_send}
use mpi_rma.Protocol.Invariant.{Stored, Inv}
use mpi_rma.Protocol.Stored.{Stored-push}

-- A world in which nothing but one slot of the lane may have changed.
pub record Writes (m : Mpi) (k : Link) (w w' : m.World) : Type 0 where
  pub windows : (t : Window) → IsWindow m t w → IsWindow m t w'
  pub elsewhere :
      (win d : ℕ) → (win ≢ k.slots_out.win) ⊎ (d ≢ k.dest) → m.memory win d w' ≡ m.memory win d w
  pub slots :
      (m.memory k.slots_out.win k.dest w' ≡ m.memory k.slots_out.win k.dest w)
      ⊎ ((p : ℕ) × (image : List ℕ) × (p < k.lane.depth)
          × (length image ≡ k.lane.slot)
          × (m.memory k.slots_out.win k.dest w'
              ≡ overwrite (m.memory k.slots_out.win k.dest w) (slot_at k.lane p) image))

module _ (m : Mpi) (laws : Laws m) (reliable : Reliable m) (c : Crc) {k : Link} (link : IsLink k)
    {f : Flow m} (inv : Inv m c k f) (bytes : List ℕ) (fits : length bytes ≤ k.lane.capacity)
    (room : length f.history + 2 < word_mod) where
  open inv use {counted, cached, acked_seen, seen_sent, gated, agrees}

  passed : Result (Unit {0}) × Sending m
  passed = gate m (some k.acks_out) k.lane (f.out.sent + 1) (sending m f)

  tight :
      ((passed.0 ≡ ok tt) → (f.out.sent + 1 ≤ f.acked + k.lane.depth))
      × ((f.out.sent + 1 ≤ f.acked + k.lane.depth) → passed.0 ≡ ok tt)
      × ((f.acked + k.lane.depth < f.out.sent + 1) → passed.0 ≡ err full)
      × (passed.1.out.sent ≡ f.out.sent)
      × (passed.1.out.acked ≤ f.acked)
      × (passed.1.world ≡ f.world)
  unfolding passed
  tight =
      let own = rw (← link.at_source) at link.acks_out_size in
      let reads = rw (← link.at_source) at agrees in
      let (a, b, s, i, lo, hi, w) =
        gate_tight m k.lane (sending m f) inv.acks_out_valid own link.inside f.acked reads cached
          (omega arith) (omega arith) in
      (a.0, a.1, b.1, s, hi, w)

  -- The call by its two outcomes.
  call_refused :
      f.acked + k.lane.depth < f.out.sent + 1 → call_send m c k bytes f ≡ (err full, passed.1)
  unfolding send_lane passed
  call_refused shut = let e = tight.2 shut in ground (arith, e)

  call_accepted :
      f.out.sent + 1 ≤ f.acked + k.lane.depth
      → call_send m c k bytes f
        ≡ transmit m c k.slots_out k.lane (pos k.dest) bytes (f.out.sent + 1) passed.1
  unfolding send_lane passed
  call_accepted open_gate = let e = tight.1 open_gate in ground (arith, e)

  sent_state : passed.1.out.sent ≡ f.out.sent
  sent_state = tight.3

  acked_state : passed.1.out.acked ≤ f.acked
  acked_state = tight.4

  world_state : passed.1.world ≡ f.world
  world_state = tight.5

  -- A refused send changes nothing but the cached counter and the count of refusals.
  refused-Inv : f.acked + k.lane.depth < f.out.sent + 1 → Inv m c k (after_send m c k bytes f)
  refused-Inv shut = rw (call_refused shut) (record {
    slots_out_valid = rw world_state inv.slots_out_valid;
    slots_in_valid = rw world_state inv.slots_in_valid;
    acks_out_valid = rw world_state inv.acks_out_valid;
    acks_in_valid = rw world_state inv.acks_in_valid;
    counted = sent_state ∙ counted;
    fresh = inv.fresh;
    cached = acked_state;
    acked_seen = acked_seen;
    seen_sent = seen_sent;
    gated = gated;
    agrees = rw world_state agrees;
    stored = rw world_state inv.stored;
    delivered = inv.delivered;
    clean = inv.clean;
  })

  module _ (open_gate : f.out.sent + 1 ≤ f.acked + k.lane.depth) where
    moved : Result ℕ × Sending m
    moved = transmit m c k.slots_out k.lane (pos k.dest) bytes (f.out.sent + 1) passed.1

    done : Transmitted m c k.slots_out k.lane k.dest passed.1 (f.out.sent + 1) bytes moved
    unfolding moved
    done =
        transmit_lem m laws reliable c k.dest passed.1 (rw world_state inv.slots_out_valid)
          link.slots_out_size link.placed (f.out.sent + 1) bytes

    next_count : length (f.history ++ bytes ∷ []) ≡ length f.history + 1
    next_count = omega (arith, length-append f.history (bytes ∷ []))

    accepted : moved ≡ (ok (f.out.sent + 1), moved.1)
    accepted = let e = done.returned in ground (arith, e)

    call_ok : call_send m c k bytes f ≡ (ok (f.out.sent + 1), moved.1)
    unfolding moved
    call_ok = call_accepted open_gate ∙ accepted

    abbrev image_sent : List ℕ
    image_sent = image m c k.slots_out k.lane k.dest passed.1 (f.out.sent + 1) bytes

    written :
        m.memory k.slots_out.win k.dest moved.1.world
        ≡ overwrite
            (m.memory k.slots_out.win k.dest f.world)
            (slot_at k.lane (length f.history % k.lane.depth))
            image_sent
    written =
        let place : f.out.sent + 1 - 1 ≡ length f.history = omega arith in
        rw (world_state, place) at done.written

    holds : Holds c k.lane image_sent (length f.history + 1) bytes
    holds =
        let number : length f.history + 1 ≡ f.out.sent + 1 = omega arith in
        rw number (
          inspect-build c k.lane passed.1.out.image (f.out.sent + 1) bytes link.placed.is_lane fits
            (λ e. omega arith) (omega arith))

    stored_next :
        Stored c k.lane (m.memory k.slots_out.win k.dest moved.1.world) (f.history ++ bytes ∷ [])
    stored_next = rw written (
        Stored-push c link.placed (m.memory k.slots_out.win k.dest f.world) f.history
          (inv.slots_out_valid.stored k.dest k.slot_total link.slots_out_size) inv.stored bytes
          image_sent (length-build c k.lane passed.1.out.image (f.out.sent + 1) bytes) holds)

    windows_next : (t : Window) → IsWindow m t f.world → IsWindow m t moved.1.world
    windows_next t v = done.windows t (rw world_state v)

    accepted-Inv : Inv m c k (after_send m c k bytes f)
    accepted-Inv = rw call_ok (record {
      slots_out_valid = windows_next k.slots_out inv.slots_out_valid;
      slots_in_valid = windows_next k.slots_in inv.slots_in_valid;
      acks_out_valid = windows_next k.acks_out inv.acks_out_valid;
      acks_in_valid = windows_next k.acks_in inv.acks_in_valid;
      counted = done.sent ∙ omega (arith, next_count);
      fresh = omega (arith, next_count);
      cached = omega (arith, done.acked, acked_state);
      acked_seen = acked_seen;
      seen_sent = omega (arith, next_count);
      gated = omega (arith, next_count);
      agrees = rw (done.elsewhere k.acks_out.win k.source (inl link.apart), world_state) agrees;
      stored = stored_next;
      delivered =
          inv.delivered
          ∙ ap (tagged (pos k.source) 0)
              (sym (take-append_le f.seen f.history (bytes ∷ []) seen_sent));
      clean = inv.clean;
    })

  -- `send` on a safe lane keeps the invariant, whether it goes through or is refused.
  pub send-Inv : Inv m c k (after_send m c k bytes f)
  send-Inv = elim (dec_le (f.out.sent + 1) (f.acked + k.lane.depth)) [
    | yes open_gate ↦ accepted-Inv open_gate
    | no shut ↦ refused-Inv (omega arith)
  ]

  -- It returns the next sequence number exactly when fewer than `depth` messages are
  -- unacknowledged, and `Full` exactly otherwise.
  pub send_outcome :
      let r = call_send m c k bytes f in
      ((r.0 ≡ ok (length f.history + 1)) ↔ (length f.history < f.acked + k.lane.depth))
      × ((r.0 ≡ err full) ↔ (f.acked + k.lane.depth ≤ length f.history))
  send_outcome = elim (dec_le (f.out.sent + 1) (f.acked + k.lane.depth)) [
    | yes open_gate ↦
        let number : f.out.sent + 1 ≡ length f.history + 1 = omega arith in
        rw (call_ok open_gate, number)
          ((λ e. omega arith, λ h. refl), (λ e. cc, λ h. absurd (omega arith)))
    | no shut ↦
        rw (call_refused (omega arith))
          ((λ e. cc, λ h. absurd (omega arith)), (λ e. omega arith, λ h. refl))
  ]

  -- What a call does to the windows: nothing, or one slot of the lane at its destination.
  pub send-Writes : Writes m k f.world (after_send m c k bytes f).world
  send-Writes = elim (dec_le (f.out.sent + 1) (f.acked + k.lane.depth)) [
    | yes open_gate ↦ rw (call_ok open_gate) (record {
      windows = windows_next open_gate;
      elsewhere = λ win d ne. (done open_gate).elsewhere win d ne ∙ ap (m.memory win d) world_state;
      slots = inr (
        length f.history % k.lane.depth,
        image_sent open_gate,
        mod-lt (length f.history) link.placed.is_lane.deep,
        length-build c k.lane passed.1.out.image (f.out.sent + 1) bytes,
        written open_gate,
      );
    })
    | no shut ↦ rw (call_refused (omega arith)) (record {
      windows = λ t v. rw world_state v;
      elsewhere = λ win d ne. ap (m.memory win d) world_state;
      slots = inl (ap (m.memory k.slots_out.win k.dest) world_state);
    })
  ]
