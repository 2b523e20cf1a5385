-- ===== src/Tests/Lanes.antt =====
-- The gate, the acknowledgement and the receive loop of the lane.
use mpi_rma.Base.{
  ℕ, zero, suc, ◌+◌, ◌≤◌, ◌<◌, ◌^◌, ◌≡◌, ◌≢◌, ◌⊎◌, ◌↔◌, refl, arith, some, true, List, [], ◌∷◌, pos,
}
use mpi_rma.Base.{
  length, length-overwrite, get_elem?, replicate, overwrite, max, leb, if◌then◌else◌, from_le,
  le_bytes, inl, ltb, ◌==◌, ◌&&◌, ◌||◌, add_word, sub_word, take, none,
}
use mpi_rma.Error.{Error, ok, err, full, ring}
use mpi_rma.Mpi.Model.{Cells, instant, instant-Laws}
use mpi_rma.Crc.{polynomial}
use mpi_rma.Window.Bounds.{IsWindow}
use mpi_rma.Ring.Image.{build, resize}
use mpi_rma.Ring.Image.RoundTrip.{inspect-build}
use mpi_rma.Ring.Send.{Sending, gate}
use mpi_rma.Ring.Send.Gate.{gate_tight}
use mpi_rma.Ring.Ack.{ack_lane}
use mpi_rma.Ring.Ack.Counter.{ack_tight}
use mpi_rma.Ring.Slots.{probe, frame}
use mpi_rma.Ring.Slots.Torn.{torn_counted}
use mpi_rma.Ring.Poll.{Cursor, drain}
use mpi_rma.Ring.Poll.Drain.{advance, drain_run}
use mpi_rma.Tests.Setup.{
  instant-Reliable, lane, lane-IsLane, lane-IsPlaced, slots_of, acks_of, world, acks-IsWindow,
}

-- Two messages sent, none acknowledged.
abbrev full_lane : Sending instant
full_lane = record { out = record { sent = 2; acked = 0; image = [] }; refused = 0; world = world }

gate_tight_example :
    let r = gate instant (some (acks_of 0)) lane 3 full_lane in
    ((r.0 ≡ ok tt) ↔ (3 ≤ 0 + 2))
    × ((r.0 ≡ err full) ↔ (0 + 2 < 3))
    × (r.1.out.sent ≡ 2)
    × (r.1.out.image ≡ [])
    × (0 ≤ r.1.out.acked)
    × (r.1.out.acked ≤ 0)
    × (r.1.world ≡ world)
gate_tight_example =
    gate_tight instant lane full_lane (acks-IsWindow 0) refl (omega arith) 0 refl (omega arith)
      (omega arith) (omega arith)

-- The counter holds 0 and the record says 1: it diverged.
ack_tight_example :
    let r = ack_lane instant (acks_of 1) lane (pos 0) (ok 2) 1 2 world in
    ((r.0 ≡ ok tt) ↔ ((2 ≤ 1) ⊎ ((2 ≤ 2) × (◌≡◌ {A = ℕ} 0 1))))
    × ((r.0 ≡ err (Error.ack (pos 0) 2 2)) ↔ (2 < 2))
    × ((r.0 ≡ err (ring "acknowledgement counter diverged"))
        ↔ ((1 < 2) × (2 ≤ 2) × (◌≢◌ {A = ℕ} 0 1)))
    × (r.1 ≡ (if leb 2 2 && (leb 2 1 || 0 == 1) then max 1 2 else 1))
    × (get_elem? (r.2.cell 1 0) 0
        ≡ some (if ltb 1 2 && leb 2 2 then add_word 0 (sub_word 2 1) else 0))
ack_tight_example =
    ack_tight instant instant-Laws instant-Reliable lane (pos 0) 0 refl world (acks-IsWindow 1) refl
      (omega arith) 2 1 2 (omega arith) (omega arith) 0 refl

-- One message in the first slot.
abbrev image : List ℕ
image = build polynomial lane [] 1 (7 ∷ 8 ∷ [])

abbrev written : ℕ → ℕ → List ℕ
written zero (suc zero) = overwrite (replicate 80 0) 0 image
written win rank = []

abbrev arrived : Cells
arrived = record { next = 2; cell = written }

arrived-IsWindow : IsWindow instant (slots_of 1) arrived
arrived-IsWindow = record { size = refl; mine = refl; stored = stored; small = small }
  where
    stored : (d n : ℕ) → get_elem? (0 ∷ 80 ∷ []) d ≡ some n → length (written 0 d) ≡ n
    stored zero n e = ground arith
    stored (suc zero) n e = ground (arith, length-overwrite (replicate 80 0) 0 image)
    stored (suc (suc d)) n e = cc

    small : (d n : ℕ) → get_elem? (0 ∷ 80 ∷ []) d ≡ some n → n < 2 ^ 63
    small zero n e = ground arith
    small (suc zero) n e = ground arith
    small (suc (suc d)) n e = cc

abbrev cursor : Cursor
cursor = record { seen = 0; lost = 0; corrupt = 0; messages = [] }

drain_run_example :
    drain instant polynomial (slots_of 1) arrived true lane (pos 0) 2 cursor
    ≡ (ok tt, advance (pos 0) cursor ((7 ∷ 8 ∷ []) ∷ []))
unfolding build resize from_le le_bytes
drain_run_example =
    drain_run instant polynomial arrived-IsWindow refl lane-IsPlaced true (pos 0)
      ((7 ∷ 8 ∷ []) ∷ []) 2 cursor (omega arith) (omega arith)
      (
        inspect-build polynomial lane [] 1 (7 ∷ 8 ∷ []) lane-IsLane (omega arith) (λ e. omega arith)
            (omega arith),
        tt,
      )
      (inl refl)

-- The first word of message 3 over the image of message 1.
abbrev torn : List ℕ
torn = overwrite image 0 (take 8 (build polynomial lane [] 3 (7 ∷ 8 ∷ [])))

abbrev half_written : ℕ → ℕ → List ℕ
half_written zero (suc zero) = overwrite (replicate 80 0) 0 torn
half_written win rank = []

abbrev writing : Cells
writing = record { next = 2; cell = half_written }

writing-IsWindow : IsWindow instant (slots_of 1) writing
writing-IsWindow = record { size = refl; mine = refl; stored = stored; small = small }
  where
    stored : (d n : ℕ) → get_elem? (0 ∷ 80 ∷ []) d ≡ some n → length (half_written 0 d) ≡ n
    stored zero n e = ground arith
    stored (suc zero) n e = ground (arith, length-overwrite (replicate 80 0) 0 torn)
    stored (suc (suc d)) n e = cc

    small : (d n : ℕ) → get_elem? (0 ∷ 80 ∷ []) d ≡ some n → n < 2 ^ 63
    small zero n e = ground arith
    small (suc zero) n e = ground arith
    small (suc (suc d)) n e = cc

torn_counted_example :
    (probe instant (slots_of 1) writing lane 0 0 ≡ (ok none, 1))
    × (frame instant polynomial (slots_of 1) writing lane 0 0 ≡ (ok none, 1))
unfolding build resize from_le le_bytes
torn_counted_example =
    torn_counted instant writing-IsWindow refl lane-IsPlaced 0 (omega arith) polynomial [] [] 3 1
      (7 ∷ 8 ∷ []) (7 ∷ 8 ∷ []) (omega arith) (omega arith) (λ e. omega arith) (omega arith)
      (omega arith) (λ e. omega arith) refl refl 0
