-- ===== src/Tests/Refinements.antt =====
-- The results that compose the ring, the protocol and the programs, on a lane of two slots.
use mpi_rma.Base.{
  ℕ, ◌+◌, ◌%◌, ◌≡◌, refl, arith, Option, none, some, List, [], ◌∷◌, ◌++◌, map, pos, length, All,
  word_mod,
}
use mpi_rma.Error.{ok}
use mpi_rma.Mpi.Model.{instant, instant-Laws}
use mpi_rma.Crc.{polynomial}
use mpi_rma.Protocol.{Flow, here, next, sends, after_send, after_poll}
use mpi_rma.Protocol.Invariant.{Inv}
use mpi_rma.Protocol.Delivery.{start, start-Inv, Step-Inv}
use mpi_rma.Protocol.Fifo.{Call, send, ack, answers_to, empty}
use mpi_rma.Protocol.Fifo
use mpi_rma.Protocol.Refinement.{serve_all, lane_refines}
use mpi_rma.Protocol.Progress.{idle, serves, turn, send_on, push_returns}
use mpi_rma.Base.{le_bytes}
use mpi_rma.Window.{put, validate}
use mpi_rma.Ring.Image.{build, resize}
use mpi_rma.Ring.Send.{send_lane, gate, transmit}
use mpi_rma.Soak.{done}
use mpi_rma.Soak.Payload.{verify, fill_from}
use mpi_rma.Soak.Push.{push}
use mpi_rma.Soak.Sender.Payloads.{payloads}
use mpi_rma.Soak.Poller.{Batch, check_batch}
use mpi_rma.Soak.Poller.Tracks.{Ready}
use mpi_rma.Soak.Poller.Polls.{poll_passes}
use mpi_rma.Soak.Payload.{check_fill}
use mpi_rma.Base.{zero, suc, from_le, some, none, false, get_elem?}
use mathlib.Core.Option.{some-injective}
use mpi_rma.Window.{read_local, read_local_volatile, read_each}
use mpi_rma.Ring.Image.{inspect, checksum}
use mpi_rma.Ring.Slots.{probe, frame}
use mpi_rma.Ring.Types.{Ring, Message, Lane, is_safe}
use mpi_rma.Ring.Regions.{IsPlaced}
use mpi_rma.Ring.Poll.{poll, poll_lanes, poll_lane, drain, round, accept}
use mpi_rma.Tests.Setup.{lane, slots_of, acks_of}
use mpi_rma.Base.{true}
use mpi_rma.Soak.Safe.{safe_lane_passes}
use mpi_rma.Tests.Setup.{instant-Reliable, lane-IsPlaced, world, link, link-IsLink, world-IsZeroed}

abbrev calls : List Call
calls = send (7 ∷ 8 ∷ []) ∷ Fifo.poll ∷ ack 1 ∷ ack 2 ∷ send [] ∷ []

lane_refines_example :
    serve_all instant polynomial link calls (start instant world) ≡ answers_to 2 (pos 0) calls empty
lane_refines_example =
    lane_refines instant instant-Laws instant-Reliable polynomial link-IsLink world-IsZeroed calls
      (omega arith, (omega arith, tt)) (omega arith)

abbrev before : Flow instant
before = start instant world

push_returns_example :
    (waited : Option ℕ) × (g : Flow instant) × (push
        (send_on instant polynomial link (9 ∷ []))
        (λ f. 0)
        (map (turn instant polynomial link) (idle ∷ serves ∷ []))
        none
        before
      ≡ some (ok waited, g))
    × (g.history ≡ [] ++ (9 ∷ []) ∷ [])
push_returns_example =
    push_returns instant instant-Laws instant-Reliable polynomial link-IsLink world-IsZeroed here
      (λ f. 0) (9 ∷ []) (omega arith) (omega arith) (idle ∷ serves ∷ []) 1 refl

-- One round of the sender.
abbrev pub painted : List ℕ
painted = 0 ∷ 0 ∷ 0 ∷ 0 ∷ 1 ∷ 0 ∷ 0 ∷ 0 ∷ 0 ∷ 0 ∷ 0 ∷ 0 ∷ []

abbrev pub pushed : Flow instant
pushed = after_send instant polynomial link painted before

pushed_history : pushed.history ≡ payloads 0 12 1 1
unfolding send_lane gate transmit put validate build resize le_bytes payloads fill_from
pushed_history = refl

safe_lane_passes_example :
    let g = after_poll instant polynomial link pushed in
    All (λ x. verify x ≡ done tt) g.inbox × (length g.inbox ≡ 1) × (g.seen ≡ 1)
safe_lane_passes_example =
    safe_lane_passes instant instant-Laws instant-Reliable polynomial link-IsLink world-IsZeroed
      (next here (sends painted (omega arith) (omega arith) refl)) 12 1 (omega arith) (omega arith)
      (omega arith) pushed_history

pub one_step : Inv instant polynomial link pushed
one_step =
    Step-Inv instant instant-Laws instant-Reliable polynomial link-IsLink
      (sends painted (omega arith) (omega arith) refl)
      (start-Inv instant polynomial link-IsLink world-IsZeroed)

-- The receiver's ring, with the lane from rank 0.
abbrev pub receiver : Ring
receiver = record {
  slots = slots_of 1;
  acks = some (acks_of 1);
  ranks = 2;
  to = none ∷ none ∷ [];
  from = some lane ∷ none ∷ [];
  incoming = pos 0 ∷ [];
  sent = [];
  seen = record { poisoned = false; value = 0 ∷ 0 ∷ [] };
  acked = record { poisoned = false; value = 0 ∷ 0 ∷ [] };
  lost = 0;
  corrupt = 0;
  max_lag = 0;
  full = 0;
}

abbrev pub receiver_after : Ring
receiver_after = record receiver {
  seen = record { poisoned = false; value = 1 ∷ 0 ∷ [] };
  max_lag = 1;
}

abbrev pub batch : List Message
batch = record { origin = pos 0; sequence = 1; bytes = painted } ∷ []

pub receiver_polls : poll instant polynomial receiver pushed.world ≡ (ok batch, receiver_after)
unfolding send_lane gate transmit put validate build resize le_bytes poll poll_lanes poll_lane drain
    round probe frame read_local_volatile read_each read_local from_le inspect checksum accept
    is_safe
receiver_polls = refl

pub receiver_Ready :
    Ready instant polynomial pushed.world true
      (record { ring = receiver; seen = receiver.seen.value; messages = [] })
unfolding is_safe
receiver_Ready = record {
  agrees = refl;
  window = one_step.slots_in_valid;
  total = 80;
  own = refl;
  lanes = lanes;
  small = λ _. ground arith;
}
  where
    lanes : (i : ℕ) (l : Lane) → get_elem? (some lane ∷ none ∷ []) i ≡ some (some l) → IsPlaced l 80
    lanes zero l e =
        let same : lane ≡ l = some-injective lane l (some-injective (some lane) (some l) e) in
        rw (← same) lane-IsPlaced
    lanes (suc zero) l e = cc
    lanes (suc (suc i)) l e = cc

batch_intact : All (λ x. verify x ≡ done tt) batch
unfolding verify check_fill from_le
batch_intact = (refl, tt)

abbrev watching : Batch
watching = record { seen = 0 ∷ 0 ∷ []; total = 0; furthest = [] }

poll_passes_example :
    (b : Batch) × (check_batch true batch watching ≡ done b)
    × (b.seen ≡ 1 ∷ 0 ∷ [])
    × (b.total % word_mod ≡ (0 + 1) % word_mod)
poll_passes_example =
    poll_passes instant polynomial pushed.world true receiver batch receiver_after watching
      receiver_Ready receiver_polls batch_intact refl
