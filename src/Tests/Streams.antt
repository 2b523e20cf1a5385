-- ===== src/Tests/Streams.antt =====
-- A stream of the benchmark on a lane of two slots, and one of point-to-point messages.
use mpi_rma.Base.{
  ℕ, ◌≡◌, ◌≤◌, ◌⊎◌, refl, arith, inl, inr, true, false, some, List, [], ◌∷◌, ◌++◌, pos, length,
}
use mpi_rma.Error.{ok}
use mpi_rma.Mpi.Model.{instant, instant-Laws}
use mpi_rma.Crc.{polynomial}
use mpi_rma.Ring.Poll.Drain.{tagged}
use mpi_rma.Protocol.Delivery.{start}
use mpi_rma.Compare.Duo.{Work, sends, stops, Duo, receiver}
use mpi_rma.Compare.Delivered.{stream_delivers}
use mpi_rma.Compare.PointToPoint.{
  data_parcel, stop_parcel, count_parcel, sending, waiting, streamed, counting, reporting, reported,
  Stream, first_stream, receive_tagged, stream_send, stream_receive, StreamTurn, rank0_turns,
  rank1_turns, StreamTurns, no_turn, one_more,
}
use mpi_rma.Compare.PointToPoint.Counted.{AllCounted, p2p_counts}
use mpi_rma.Tests.Setup.{instant-Reliable, world, link, link-IsLink, world-IsZeroed}

-- A message before the acknowledgement of nothing; a message and the report that the sender has
-- stopped, both between a poll that finds one message and the probe.
abbrev idle : Work
idle = record { polled = []; acked = []; probed = [] }

abbrev work : List Work
work = record { polled = sends (7 ∷ 8 ∷ []) ∷ []; acked = []; probed = [] } ∷ []

abbrev last_work : Work
last_work = record { polled = sends (9 ∷ []) ∷ []; acked = stops ∷ []; probed = [] }

stream_delivers_example :
    (last : Duo instant) × (receiver instant polynomial link
        (work ++ last_work ∷ idle ∷ idle ∷ idle ∷ [])
        0
        false
        (record { flow = start instant world; stopped = false; waiting = false })
      ≡ some (ok (length last.flow.history), last))
    × (last.stopped ≡ true)
    × (last.flow.inbox ≡ tagged (pos 0) 0 last.flow.history)
stream_delivers_example =
    stream_delivers instant instant-Laws instant-Reliable polynomial link-IsLink world-IsZeroed work
      last_work (idle ∷ idle ∷ idle ∷ []) (inr (inl refl))
      (
        ((omega arith, tt), tt, tt),
        (((omega arith, tt), tt, tt), ((tt, tt, tt), ((tt, tt, tt), ((tt, tt, tt), tt)))),
      )
      (omega arith) (omega arith)

-- A stream of one point-to-point message, in its six turns.
abbrev in_flight : Stream
in_flight = record first_stream { rank0 = sending 1; to_rank1 = data_parcel (7 ∷ []) ∷ [] }

abbrev taken : Stream
taken = record first_stream { rank0 = sending 1; rank1 = counting 1 }

abbrev stopping_one : Stream
stopping_one = record taken { rank0 = waiting 1; to_rank1 = stop_parcel ∷ [] }

abbrev stopped_one : Stream
stopped_one = record taken { rank0 = waiting 1; rank1 = reporting 1 }

abbrev replying_one : Stream
replying_one = record stopped_one { rank1 = reported 1; to_rank0 = count_parcel 1 ∷ [] }

abbrev all_over : Stream
all_over = record first_stream { rank0 = streamed 1 1; rank1 = reported 1 }

one_streamed : StreamTurns (7 ∷ []) 1 first_stream 6 all_over
unfolding stream_send stream_receive receive_tagged
one_streamed =
    one_more {t = replying_one}
      (one_more {t = stopped_one}
        (one_more {t = stopping_one}
          (one_more {t = taken}
            (one_more {t = in_flight} (one_more {t = first_stream} no_turn (rank0_turns refl))
              (rank1_turns refl))
            (rank0_turns refl))
          (rank1_turns refl))
        (rank1_turns refl))
      (rank0_turns refl)

p2p_counts_example :
    (6 ≤ 6)
    × (((◌≡◌ {A = ℕ} 6 6) × AllCounted 1 all_over)
        ⊎ ((u : Stream) × StreamTurn (7 ∷ []) 1 all_over u))
p2p_counts_example = p2p_counts (7 ∷ []) 1 one_streamed
