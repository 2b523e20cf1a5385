-- ===== src/Protocol/Delivery.antt =====
-- What holds of a safe lane after any history of calls, from the state that `Ring::new` leaves.
use mpi_rma.Base.{
  ℕ, ◌↔◌, ◌+◌, ◌≤◌, ◌<◌, ◌≡◌, refl, ◌∙◌, ap, arith, some, List, [], length, get_elem?, pos, take,
  All,
}
use mpi_rma.Base.{All-slice, All-get_elem?, get_elem?_total, from_le-zeros, word_mod}
use mpi_rma.Base.{Option, none}
use mpi_rma.Error.{Error, ok, err, full}
use mpi_rma.Mpi.{Mpi, Laws, Reliable}
use mpi_rma.Crc.{Crc}
use mpi_rma.Window.Bounds.{IsWindow}
use mpi_rma.Ring.Types.{word}
use mpi_rma.Ring.Send.{slot_at}
use mpi_rma.Ring.Poll.Drain.{tagged}
use mpi_rma.Protocol.{
  Link, IsLink, Flow, Step, sends, polls, acks, Reach, here, next, call_send, call_poll, call_ack,
  after_poll, after_ack,
}
use mpi_rma.Protocol.Invariant.{Inv}
use mpi_rma.Protocol.SendStep.{send-Inv, send_outcome}
use mpi_rma.Protocol.PollStep.{poll-Inv, poll_outcome, poll_inbox}
use mpi_rma.Protocol.AckStep.{ack-Inv, ack_outcome, ack_all}

-- A lane before the first call, over some world.
abbrev pub start : (m : Mpi) → m.World → Flow m
start m w = record {
  out = record { sent = 0; acked = 0; image = [] };
  refused = 0;
  world = w;
  seen = 0;
  acked = 0;
  lost = 0;
  corrupt = 0;
  history = [];
  inbox = [];
}

-- `allocate` zeroes the storage of both windows.
pub record IsZeroed (m : Mpi) (k : Link) (w : m.World) : Type 0 where
  pub slots_out_valid : IsWindow m k.slots_out w
  pub slots_in_valid : IsWindow m k.slots_in w
  pub acks_out_valid : IsWindow m k.acks_out w
  pub acks_in_valid : IsWindow m k.acks_in w
  pub slots_zero : All (λ x. x ≡ 0) (m.memory k.slots_out.win k.dest w)
  pub acks_zero : All (λ x. x ≡ 0) (m.memory k.acks_out.win k.source w)

pub start-Inv :
    (m : Mpi) (c : Crc) {k : Link} (link : IsLink k) {w : m.World}
    → IsZeroed m k w
    → Inv m c k (start m w)
unfolding tagged
start-Inv m c {k} link {w} z = record {
  slots_out_valid = z.slots_out_valid;
  slots_in_valid = z.slots_in_valid;
  acks_out_valid = z.acks_out_valid;
  acks_in_valid = z.acks_in_valid;
  counted = refl;
  fresh = omega arith;
  cached = omega arith;
  acked_seen = omega arith;
  seen_sent = omega arith;
  gated = omega arith;
  agrees = zero_counter;
  stored = record {
    held = λ i b e room. absurd (none-some e);
    vacant = λ p past h. from_le-zeros _ (
        All-slice (λ x. x ≡ 0) 0 word _
          (All-slice (λ x. x ≡ 0) (slot_at k.lane p) k.lane.slot _ z.slots_zero));
  };
  delivered = refl;
  clean = (refl, refl);
}
  where
    none-some : {b : List ℕ} → ◌≡◌ {A = Option (List ℕ)} none (some b) → ⊥
    none-some e = cc

    counter : (v : ℕ) × (get_elem? (m.memory k.acks_out.win k.source w) k.lane.ack ≡ some v)
    counter = get_elem?_total (m.memory k.acks_out.win k.source w) k.lane.ack (
        omega (arith, link.inside, z.acks_out_valid.stored k.source k.ack_total link.acks_out_size))

    zero_counter : get_elem? (m.memory k.acks_out.win k.source w) k.lane.ack ≡ some 0
    zero_counter =
        counter.1
        ∙ ap some (All-get_elem? (λ x. x ≡ 0) _ k.lane.ack counter.0 z.acks_zero counter.1)

module _ (m : Mpi) (laws : Laws m) (reliable : Reliable m) (c : Crc) {k : Link}
    (link : IsLink k) where
  -- With a library that keeps its laws and whose calls succeed, every call of `send` (of a payload
  -- that fits, before the sequence numbers run out), `poll` and `ack` keeps the lane's invariant.
  pub Step-Inv : {f g : Flow m} → Step m c k f g → Inv m c k f → Inv m c k g
  Step-Inv (sends bytes fits room e) inv =
      rw e (send-Inv m laws reliable c link inv bytes fits room)
  Step-Inv (polls e) inv = rw e (poll-Inv m c link inv)
  Step-Inv (acks sequence e) inv = rw e (ack-Inv m laws reliable c link inv sequence)

  pub Reach-Inv : {f g : Flow m} → Inv m c k f → Reach m c k f g → Inv m c k g
  Reach-Inv inv here = inv
  Reach-Inv inv (next r st) = Step-Inv st (Reach-Inv inv r)

  module _ {w : m.World} (z : IsZeroed m k w) {f : Flow m} (run : Reach m c k (start m w) f) where
    reached : Inv m c k f
    reached = Reach-Inv (start-Inv m c link z) run

    -- With a library that keeps its laws and whose calls succeed, from zeroed windows and in every
    -- order of calls on a safe lane (payloads fit it, and the sequence numbers are not used up),
    -- the receiver has been given exactly a prefix of the messages whose send returned `Ok`: each
    -- once, in the order sent, under its sequence number, intact. At most `depth` are
    -- unacknowledged, and neither counter of the ring has moved.
    pub exactly_once :
        (f.inbox ≡ tagged (pos k.source) 0 (take f.seen f.history))
        × (f.seen ≤ length f.history)
        × (length f.history ≤ f.acked + k.lane.depth)
        × (f.lost ≡ 0)
        × (f.corrupt ≡ 0)
    exactly_once = let i = reached in (i.delivered, i.seen_sent, i.gated, i.clean.0, i.clean.1)

    -- From zeroed windows, with a library that keeps its laws and does not fail, and after any
    -- calls on a safe lane: the next poll succeeds and completes the prefix, so that everything
    -- sent has been delivered.
    pub poll_complete :
        ((call_poll m c k f).0 ≡ ok tt)
        × ((after_poll m c k f).inbox ≡ tagged (pos k.source) 0 f.history)
    poll_complete =
        let done = poll_outcome m c link reached in
        (ap (λ r. r.0) done, (poll_inbox m c link reached).0)

    -- From zeroed windows, with a library that keeps its laws and does not fail, and after any
    -- calls on a safe lane: for a payload that fits, while sequence numbers are left, `send`
    -- answers the next sequence number exactly when fewer than `depth` messages are unacknowledged,
    -- and `Full` exactly when `depth` of them are. `ack` answers `Ok` exactly for a sequence that
    -- was received, and its refusal exactly for a later one.
    pub answers :
        (bytes : List ℕ) (sequence : ℕ)
        → length bytes ≤ k.lane.capacity
        → length f.history + 2 < word_mod
        → let sent = (call_send m c k bytes f).0 in
          let acked = (call_ack m c k sequence f).0 in
          ((sent ≡ ok (length f.history + 1)) ↔ (length f.history < f.acked + k.lane.depth))
          × ((sent ≡ err full) ↔ (length f.history ≡ f.acked + k.lane.depth))
          × ((acked ≡ ok tt) ↔ (sequence ≤ f.seen))
          × ((acked ≡ err (Error.ack (pos k.source) sequence f.seen)) ↔ (f.seen < sequence))
    answers bytes sequence fits room =
        let (sent, refused) = send_outcome m laws reliable c link reached bytes fits room in
        let (acked, early) = ack_outcome m laws reliable c link reached sequence in
        let gated = (reached).gated in
        (
          sent,
          (λ e. omega (arith, refused.0 e, gated), λ e. refused.1 (omega (arith, e))),
          acked,
          early,
        )

    -- From zeroed windows, with a library that keeps its laws and does not fail, and after any
    -- calls on a safe lane: once the receiver has polled and acknowledged what it got, the next
    -- send of a payload that fits goes through, while sequence numbers are left.
    pub no_deadlock :
        (bytes : List ℕ)
        → length bytes ≤ k.lane.capacity
        → length f.history + 2 < word_mod
        → let polled = after_poll m c k f in
          (call_send m c k bytes (after_ack m c k polled.seen polled)).0 ≡ ok (length f.history + 1)
    no_deadlock bytes fits room =
        let polled = after_poll m c k f in
        let inv = poll-Inv m c link reached in
        let inv' = ack-Inv m laws reliable c link inv polled.seen in
        let all = ack_all m laws reliable c link inv polled.seen refl in
        let caught_up = (poll_inbox m c link reached).1 in
        (send_outcome m laws reliable c link inv' bytes fits room).0.1
          (omega (arith, all, caught_up, link.placed.is_lane.deep))
