-- ===== src/Compare/PointToPoint.antt =====
-- `p2p_stream` and `p2p_rtt` of examples/compare.rs. A message that was sent waits in the queue of
-- its direction, and messages of one direction arrive in the order sent. One turn is a send, or a
-- receive of a message that is there. A send returns at once. `buf` is the buffer that `shuffled`
-- gave.
pub mod Counted
pub mod Answered
use mpi_rma.Base.{
  ℕ, zero, suc, ◌+◌, ◌≡◌, Bool, true, false, Option, none, some, List, [], ◌∷◌, ◌++◌, ltb, ◌==◌,
  if◌then◌else◌,
}

abbrev pub tag_data : ℕ
tag_data = 1

abbrev pub tag_stop : ℕ
tag_stop = 2

-- What a message carries: bytes, or the words of a count.
pub record Parcel : Type 0 where
  pub tag : ℕ
  pub content : List ℕ

-- `receive_vec_with_tag`: the first message with the tag, and the others.
unfoldable pub receive_tagged : ℕ → List Parcel → Option (List ℕ × List Parcel)
receive_tagged tag [] = none
receive_tagged tag (p ∷ ps) = elim (p.tag == tag) [
  | true ↦ some (p.content, ps)
  | false ↦ elim (receive_tagged tag ps) [
    | none ↦ none
    | some (content, rest) ↦ some (content, p ∷ rest)
  ]
]

abbrev pub data_parcel : List ℕ → Parcel
data_parcel buf = record { tag = tag_data; content = buf }

abbrev pub stop_parcel : Parcel
stop_parcel = record { tag = tag_stop; content = 0 ∷ [] }

abbrev pub count_parcel : ℕ → Parcel
count_parcel got = record { tag = tag_stop; content = got ∷ [] }

-- Rank 0: in its loop, at its receive of the count, or with its result; `reply[0]` can panic.
pub data Streamer : Type 0 where
  sending : (sent : ℕ) → Streamer
  waiting : (sent : ℕ) → Streamer
  streamed : (sent reply : ℕ) → Streamer
  crashed : Streamer

-- Rank 1: in its loop, before its answer, or with its result.
pub data Counter : Type 0 where
  counting : (got : ℕ) → Counter
  reporting : (got : ℕ) → Counter
  reported : (got : ℕ) → Counter

pub record Stream : Type 0 where
  pub rank0 : Streamer
  pub rank1 : Counter
  pub to_rank1 : List Parcel
  pub to_rank0 : List Parcel

abbrev pub first_stream : Stream
first_stream = record { rank0 = sending 0; rank1 = counting 0; to_rank1 = []; to_rank0 = [] }

abbrev pub replied : ℕ → List ℕ → Streamer
replied sent [] = crashed
replied sent (reply ∷ _) = streamed sent reply

module _ (buf : List ℕ) (n : ℕ) where
  -- A buffered send and a standard one put the same message in the queue. `none` is a rank that
  -- waits for a message or has returned.
  unfoldable pub stream_send : Streamer → Stream → Option Stream
  unfolding receive_tagged
  stream_send (sending sent) s =
      if ltb sent n
      then some
          (record s { rank0 = sending (sent + 1); to_rank1 = s.to_rank1 ++ data_parcel buf ∷ [] })
      else some (record s { rank0 = waiting sent; to_rank1 = s.to_rank1 ++ stop_parcel ∷ [] })
  stream_send (waiting sent) s = elim (receive_tagged tag_stop s.to_rank0) [
    | none ↦ none
    | some (reply, rest) ↦ some (record s { rank0 = replied sent reply; to_rank0 = rest })
  ]
  stream_send (streamed sent reply) s = none
  stream_send crashed s = none

  abbrev pub counted_one : ℕ → List Parcel → Stream → Option Stream
  counted_one got [] s = none
  counted_one got (p ∷ ps) s =
      if p.tag == tag_stop
      then some (record s { rank1 = reporting got; to_rank1 = ps })
      else some (record s { rank1 = counting (got + 1); to_rank1 = ps })

  unfoldable pub stream_receive : Counter → Stream → Option Stream
  stream_receive (counting got) s = counted_one got s.to_rank1 s
  stream_receive (reporting got) s =
      some (record s { rank1 = reported got; to_rank0 = s.to_rank0 ++ count_parcel got ∷ [] })
  stream_receive (reported got) s = none

  -- A turn of one of the two ranks.
  pub data StreamTurn (s t : Stream) : Type 0 where
    rank0_turns : stream_send s.rank0 s ≡ some t → StreamTurn s t
    rank1_turns : stream_receive s.rank1 s ≡ some t → StreamTurn s t

  pub data StreamTurns (s : Stream) : ℕ → Stream → Type 0 where
    no_turn : StreamTurns s 0 s
    one_more : {k : ℕ} {t u : Stream} → StreamTurns s k t → StreamTurn t u → StreamTurns s (suc k) u

-- One rank of the round trips, in its loop with the rounds that are left.
pub data Hop : Type 0 where
  outgoing : (left : ℕ) → Hop
  incoming : (left : ℕ) → Hop

pub record Hops : Type 0 where
  pub hop0 : Hop
  pub hop1 : Hop
  pub to_hop1 : List Parcel
  pub to_hop0 : List Parcel

abbrev pub first_hops : ℕ → Hops
first_hops iters = record {
  hop0 = outgoing iters;
  hop1 = incoming iters;
  to_hop1 = [];
  to_hop0 = [];
}

module _ (buf : List ℕ) where
  -- Rank 0 sends and then receives in each round.
  unfoldable pub hop_first : Hop → Hops → Option Hops
  unfolding receive_tagged
  hop_first (outgoing zero) s = none
  hop_first (outgoing (suc left)) s =
      some (record s { hop0 = incoming (suc left); to_hop1 = s.to_hop1 ++ data_parcel buf ∷ [] })
  hop_first (incoming zero) s = none
  hop_first (incoming (suc left)) s = elim (receive_tagged tag_data s.to_hop0) [
    | none ↦ none
    | some (_, rest) ↦ some (record s { hop0 = outgoing left; to_hop0 = rest })
  ]

  -- Rank 1 receives and then sends.
  unfoldable pub hop_second : Hop → Hops → Option Hops
  unfolding receive_tagged
  hop_second (incoming zero) s = none
  hop_second (incoming (suc left)) s = elim (receive_tagged tag_data s.to_hop1) [
    | none ↦ none
    | some (_, rest) ↦ some (record s { hop1 = outgoing (suc left); to_hop1 = rest })
  ]
  hop_second (outgoing zero) s = none
  hop_second (outgoing (suc left)) s =
      some (record s { hop1 = incoming left; to_hop0 = s.to_hop0 ++ data_parcel buf ∷ [] })

  pub data HopTurn (s t : Hops) : Type 0 where
    first_turns : hop_first s.hop0 s ≡ some t → HopTurn s t
    second_turns : hop_second s.hop1 s ≡ some t → HopTurn s t

  pub data HopTurns (s : Hops) : ℕ → Hops → Type 0 where
    no_hop : HopTurns s 0 s
    one_hop : {k : ℕ} {t u : Hops} → HopTurns s k t → HopTurn t u → HopTurns s (suc k) u
