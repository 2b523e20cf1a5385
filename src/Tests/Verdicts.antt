-- ===== src/Tests/Verdicts.antt =====
-- The stress test on rank 1 of two ranks, with one message from rank 0.
use mpi_rma.Base.{
  ℕ, zero, suc, ◌+◌, ◌-◌, ◌%◌, ◌≤◌, ◌<◌, ◌≡◌, ◌↔◌, refl, arith, true, none, some, List, [], ◌∷◌, ℤ,
  pos, length, slice, from_le, le_bytes, get_elem?, word_mod,
}
use mathlib.Core.Option.{some-injective}
use mpi_rma.Mpi.Model.{instant, instant-Laws}
use mpi_rma.Crc.{polynomial}
use mpi_rma.Window.{put, validate, local, read_local, read_local_volatile, read_each, fetch_add}
use mpi_rma.Ring.Image.{build, resize, inspect, checksum}
use mpi_rma.Ring.Send.{send_lane, gate, transmit, peer}
use mpi_rma.Ring.Slots.{probe, frame}
use mpi_rma.Ring.Types.{Lane, is_safe, word}
use mpi_rma.Ring.Regions.{region}
use mpi_rma.Ring.Poll.{poll, poll_lanes, poll_lane, drain, round, accept}
use mpi_rma.Ring.Poll.Balance.{Sound}
use mpi_rma.Ring.Poll.Ledger.{poll_accounts}
use mpi_rma.Ring.Ack.{ack, ack_lane}
use mpi_rma.Soak.{done}
use mpi_rma.Soak.Payload.{verify, check_fill}
use mpi_rma.Soak.Poller.{
  check_batch, check_message, check_sequence, advance_entry, ack_all, handle, run,
}
use mpi_rma.Soak.Poller.Live.{Live, Healthy}
use mpi_rma.Soak.Poller.Turns.{refl-Keeps}
use mpi_rma.Soak.Poller.Whole.{Harmless, polling}
use mpi_rma.Soak.Verdict.{passes, judge, check_lanes}
use mpi_rma.Soak.Verdict.Balanced.{AllEnded, verdict_iff}
use mpi_rma.Tests.Setup.{lane, acks_of}
use mpi_rma.Tests.Refinements.{
  receiver, receiver_after, pushed, one_step, receiver_Ready, batch, receiver_polls,
}

abbrev begun : Live instant
begun = record { ring = receiver; world = pushed.world; barrier = true }

abbrev unsorted : List (ℤ × ℕ) → List (ℤ × ℕ)
unsorted xs = xs

abbrev nothing : Live instant → Live instant
nothing s = s

abbrev schedule : List (Live instant → Live instant)
schedule = nothing ∷ nothing ∷ []

harmless : Harmless instant instant-Laws polynomial true unsorted schedule
harmless =
    let still = λ (s : Live instant) (h : Healthy instant true s).
      refl-Keeps instant instant-Laws polynomial true unsorted s h in
    (still, (still, tt))

abbrev head : ℕ → ℕ
head q = from_le (slice 0 word (region lane q (local instant receiver.slots pushed.world)))

first_head : head 0 ≡ 1
unfolding send_lane gate transmit put validate build resize le_bytes from_le
first_head = refl

second_head : head 1 ≡ 0
unfolding send_lane gate transmit put validate build resize le_bytes from_le
second_head = refl

slot_heads : (q : ℕ) → q < 2 → head q + 1 < word_mod
slot_heads zero h = omega (arith, first_head)
slot_heads (suc zero) h = omega (arith, second_head)
slot_heads (suc (suc q)) h = absurd (omega arith)

heads :
    (i : ℕ) (l : Lane) (p : ℕ)
    → get_elem? (some lane ∷ none ∷ []) i ≡ some (some l)
    → p < l.depth
    → from_le (slice 0 word (region l p (local instant receiver.slots pushed.world))) + 1 < word_mod
heads zero l p e lt =
    let same : lane ≡ l = some-injective lane l (some-injective (some lane) (some l) e) in
    rw (← same) (slot_heads p (rw (← same) at lt))
heads (suc zero) l p e lt = cc
heads (suc (suc i)) l p e lt = cc

begun-Sound : Sound instant pushed.world receiver
begun-Sound = record {
  window = receiver_Ready.window;
  total = receiver_Ready.total;
  own = receiver_Ready.own;
  lanes = receiver_Ready.lanes;
  heads = heads;
}

begun-Healthy : Healthy instant true begun
begun-Healthy = record {
  sound = begun-Sound;
  agrees = receiver_Ready.agrees;
  small = receiver_Ready.small;
  counter_window = λ a e.
      let same : acks_of 1 ≡ a = some-injective (acks_of 1) a e in
      rw (← same) (one_step.acks_in_valid, λ z. omega arith);
}

abbrev finished : Live instant
finished =
    let r = ack instant receiver_after (pos 0) 1 pushed.world in
    record { ring = r.1; world = r.2; barrier = true }

-- The first poll takes the message, the second finds nothing.
polled :
    polling instant instant-Laws polynomial true unsorted schedule (0 ∷ 0 ∷ []) 0 begun
    ≡ some (done (1 ∷ 0 ∷ [], 1), finished)
unfolding send_lane gate transmit put validate build resize le_bytes poll poll_lanes poll_lane drain
    round probe frame read_local_volatile read_each read_local from_le inspect checksum accept
    is_safe check_batch check_message check_sequence advance_entry verify check_fill ack_all handle
    run ack ack_lane peer fetch_add
polled = refl

verdict_iff_example :
    (judge true 2 1 1 (1 ∷ 0 ∷ []) 1 finished.ring.lost ≡ passes)
    ↔ (AllEnded 2 1 1 (1 ∷ 0 ∷ []) × (true ≡ true → finished.ring.lost ≡ 0))
verdict_iff_example =
    verdict_iff instant instant-Laws polynomial true unsorted 2 1 1 schedule harmless begun
      begun-Healthy (omega arith) refl refl refl (1 ∷ 0 ∷ []) 1 finished polled

begun_passes : judge true 2 1 1 (1 ∷ 0 ∷ []) 1 0 ≡ passes
unfolding judge check_lanes
begun_passes = refl

poll_accounts_example :
    (0 ≤ 1)
    × ((0 + 1) % word_mod ≡ (0 + (1 - 0)) % word_mod)
    × (length receiver_after.seen.value ≡ 2)
    × ((i : ℕ)
        → get_elem? receiver.from i ≡ some none
        → get_elem? receiver_after.seen.value i ≡ get_elem? receiver.seen.value i)
poll_accounts_example =
    poll_accounts instant pushed.world polynomial receiver receiver_after batch begun-Sound
      receiver_polls
