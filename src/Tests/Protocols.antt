-- ===== src/Tests/Protocols.antt =====
-- A message sent, polled and acknowledged, and what the protocol's theorems say of that run.
use mpi_rma.Base.{
  ◌↔◌, ◌<◌, ◌≤◌, ◌+◌, ◌≤◌, ◌<◌, ◌≡◌, refl, arith, [], ◌∷◌, pos, length, take, word_mod,
}
use mpi_rma.Error.{Error, ok, err, full}
use mpi_rma.Mpi.Model.{instant, instant-Laws}
use mpi_rma.Crc.{polynomial}
use mpi_rma.Window.{put, validate, read_local, read_local_volatile, read_each}
use mpi_rma.Base.{le_bytes, from_le}
use mpi_rma.Ring.Image.{build, resize, inspect, checksum}
use mpi_rma.Ring.Send.{send_lane, gate, transmit, acknowledged}
use mpi_rma.Ring.Slots.{probe, frame}
use mpi_rma.Ring.Poll.{drain, round, accept}
use mpi_rma.Ring.Poll.Drain.{tagged}
use mpi_rma.Protocol.{
  Flow, Reach, here, next, sends, polls, acks, call_send, call_poll, call_ack, after_send,
  after_poll, after_ack,
}
use mpi_rma.Protocol.Invariant.{Inv}
use mpi_rma.Protocol.Delivery.{
  start, start-Inv, Step-Inv, exactly_once, poll_complete, answers, no_deadlock,
}
use mpi_rma.Tests.Setup.{instant-Reliable, lane, world, link, link-IsLink, world-IsZeroed}

abbrev before : Flow instant
before = start instant world

abbrev sent_one : Flow instant
sent_one = after_send instant polynomial link (7 ∷ 8 ∷ []) before

abbrev polled_one : Flow instant
polled_one = after_poll instant polynomial link sent_one

abbrev acked_one : Flow instant
acked_one = after_ack instant polynomial link 1 polled_one

run : Reach instant polynomial link before acked_one
run =
    next (next (next here (sends (7 ∷ 8 ∷ []) (omega arith) (omega arith) refl)) (polls refl))
      (acks 1 refl)

-- The first send is accepted, and leaves one payload in the history.
sent_one_history : sent_one.history ≡ (7 ∷ 8 ∷ []) ∷ []
unfolding send_lane gate transmit put validate build resize le_bytes
sent_one_history = refl

one_used : length sent_one.history + 2 < word_mod
one_used = rw sent_one_history (omega arith)

-- It is polled whole.
polled_one_inbox :
    polled_one.inbox ≡ record { origin = pos 0; sequence = 1; bytes = 7 ∷ 8 ∷ [] } ∷ []
unfolding send_lane gate transmit put validate build resize le_bytes drain round probe frame
    read_local_volatile read_each read_local from_le inspect checksum accept
polled_one_inbox = refl

-- Two sends fill the lane; the third is refused until the receiver acknowledges.
full_lane : Flow instant
full_lane = after_send instant polynomial link (9 ∷ []) sent_one

third_refused : (call_send instant polynomial link (5 ∷ []) full_lane).0 ≡ err full
unfolding send_lane gate transmit put validate build resize le_bytes full_lane acknowledged
    read_local_volatile read_each
third_refused = refl

exactly_once_example :
    (acked_one.inbox ≡ tagged (pos 0) 0 (take acked_one.seen acked_one.history))
    × (acked_one.seen ≤ length acked_one.history)
    × (length acked_one.history ≤ acked_one.acked + lane.depth)
    × (acked_one.lost ≡ 0)
    × (acked_one.corrupt ≡ 0)
exactly_once_example =
    exactly_once instant instant-Laws instant-Reliable polynomial link-IsLink world-IsZeroed run

poll_complete_example :
    ((call_poll instant polynomial link sent_one).0 ≡ ok tt)
    × ((after_poll instant polynomial link sent_one).inbox ≡ tagged (pos 0) 0 sent_one.history)
poll_complete_example =
    poll_complete instant instant-Laws instant-Reliable polynomial link-IsLink world-IsZeroed
      (next here (sends (7 ∷ 8 ∷ []) (omega arith) (omega arith) refl))

answers_example :
    let sent = (call_send instant polynomial link (9 ∷ []) sent_one).0 in
    let acked = (call_ack instant polynomial link 2 sent_one).0 in
    ((sent ≡ ok (length sent_one.history + 1))
      ↔ (length sent_one.history < sent_one.acked + link.lane.depth))
    × ((sent ≡ err full) ↔ (length sent_one.history ≡ sent_one.acked + link.lane.depth))
    × ((acked ≡ ok tt) ↔ (2 ≤ sent_one.seen))
    × ((acked ≡ err (Error.ack (pos 0) 2 sent_one.seen)) ↔ (sent_one.seen < 2))
answers_example =
    answers instant instant-Laws instant-Reliable polynomial link-IsLink world-IsZeroed
      (next here (sends (7 ∷ 8 ∷ []) (omega arith) (omega arith) refl)) (9 ∷ []) 2 (omega arith)
      one_used

no_deadlock_example :
    (call_send instant polynomial link
      (9 ∷ [])
      (after_ack instant polynomial link polled_one.seen polled_one)).0
    ≡ ok (length sent_one.history + 1)
no_deadlock_example =
    no_deadlock instant instant-Laws instant-Reliable polynomial link-IsLink world-IsZeroed
      (next here (sends (7 ∷ 8 ∷ []) (omega arith) (omega arith) refl)) (9 ∷ []) (omega arith)
      one_used

start_kept : Inv instant polynomial link before
start_kept = start-Inv instant polynomial link-IsLink world-IsZeroed

Step-Inv_example : Inv instant polynomial link sent_one
Step-Inv_example =
    Step-Inv instant instant-Laws instant-Reliable polynomial link-IsLink
      (sends (7 ∷ 8 ∷ []) (omega arith) (omega arith) refl) start_kept
