-- ===== src/Compare/Duo.antt =====
-- `ring_stream` on a safe lane: its two ranks.
use mpi_rma.Base.{ℕ, Bool, true, false, Option, List, [], ◌∷◌, ℤ, length, drop, map, if◌then◌else◌}
use mpi_rma.Error.{Result, ok, err, panic}
use mpi_rma.Mpi.{Mpi}
use mpi_rma.Crc.{Crc}
use mpi_rma.Ring.Types.{Message}
use mpi_rma.Protocol
use mpi_rma.Protocol.{
  Link, IsLink, Flow, receiving, call_poll, call_ack, sent_to, call_send, after_send, after_poll,
}
use mpi_rma.Compare.Stream.{after_ack, polled_turn, drain_loop, Turned, Others}

-- What the sender does: one attempt to send, or the message that it has stopped, after which it
-- does nothing more.
pub data Act : Type 0 where
  sends : List ℕ → Act
  stops : Act

-- What the sender does in a turn of the receiver: between its poll and its acknowledgement, from
-- there to its probe, and after it.
pub record Work : Type 0 where
  pub polled : List Act
  pub acked : List Act
  pub probed : List Act

module _ (m : Mpi) where
  -- `waiting`: the sender's last message is there and was not received.
  pub record Duo : Type 0 where
    pub flow : Flow m
    pub stopped : Bool
    pub waiting : Bool

  module _ (c : Crc) (k : Link) where
    abbrev pub act : Act → Duo → Duo
    act (sends bytes) d = if d.stopped then d else record d { flow = after_send m c k bytes d.flow }
    act stops d = if d.stopped then d else record d { stopped = true; waiting = true }

    abbrev pub acts : List Act → Duo → Duo
    acts [] d = d
    acts (a ∷ rest) d = acts rest (act a d)

    -- `poll` returns the messages that it adds.
    abbrev pub poll_result : Result (Unit {0}) → List Message → Result (List Message)
    poll_result (ok _) ms = ok ms
    poll_result (err e) ms = err e
    poll_result panic ms = panic

    abbrev pub poll_on : Duo → Result (List Message) × Duo
    poll_on d =
        let f = after_poll m c k d.flow in
        (
          poll_result (call_poll m c k d.flow).0 (drop (length d.flow.inbox) f.inbox),
          record d { flow = f },
        )

    abbrev pub ack_on : ℤ → ℕ → Duo → Result (Unit {0}) × Duo
    ack_on origin n d =
        ((call_ack m c k n d.flow).0, record d { flow = Protocol.after_ack m c k n d.flow })

    abbrev pub receive_on : Duo → Duo
    receive_on d = record d { waiting = false }

    -- A turn of the receiver, with what the sender does after its poll and after its
    -- acknowledgement.
    abbrev pub turn_on :
        (first second : List Act)
        → (got : ℕ) → (stopping : Bool) → Duo
        → Turned poll_on ack_on (λ e. e.waiting) receive_on
    turn_on first second got stopping d =
        polled_turn poll_on ack_on (λ e. e.waiting) receive_on (acts first) (acts second) got
          stopping (poll_on d)

    abbrev pub after_on :
        (got : ℕ)
        → (stopping empty : Bool) → Duo
        → Turned poll_on ack_on (λ e. e.waiting) receive_on
    after_on = after_ack poll_on ack_on (λ e. e.waiting) receive_on

    abbrev pub others_of : Work → Others poll_on ack_on (λ e. e.waiting) receive_on
    others_of t = record { polled = acts t.polled; acked = acts t.acked; probed = acts t.probed }

    -- The receiver's loop while the sender works.
    abbrev pub receiver : List Work → (got : ℕ) → (stopping : Bool) → Duo → Option (Result ℕ × Duo)
    receiver turns got stopping d =
        drain_loop poll_on ack_on (λ e. e.waiting) receive_on (map others_of turns) got stopping d
