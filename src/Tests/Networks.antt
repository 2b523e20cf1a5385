-- ===== src/Tests/Networks.antt =====
-- Two ranks with a lane each way: a message on each lane.
use mpi_rma.Base.{ℕ, zero, suc, ◌<◌, ◌^◌, ◌≡◌, refl, arith, some, List, [], ◌∷◌, pos, Option}
use mpi_rma.Base.{length, get_elem?, replicate, All, ◌==◌, if◌then◌else◌, false}
use mpi_rma.Error.{ok}
use mpi_rma.Mpi.Model.{Cells, instant, instant-Laws}
use mpi_rma.Crc.{polynomial}
use mpi_rma.Window.{Window, unified}
use mpi_rma.Ring.Layout.{Tables, layout}
use mpi_rma.Ring.Layout.Sorting.{sort_specs}
use mpi_rma.Protocol.{Link, sends, polls, after_send, after_poll}
use mpi_rma.Protocol.Network.{Net, NetReach, begin, then_call, calls, flow, with_flow}
use mpi_rma.Protocol.Network.Runs.{Delivers, start_net}
use mpi_rma.Protocol.Network.Whole.{IsRing, two_ends, links_of}
use mpi_rma.Base.{Bool, true}
use mpi_rma.Protocol.Network.{NetInv}
use mpi_rma.Protocol.Network.Runs.{NetStep-NetInv, start-NetInv}
use mpi_rma.Protocol.Network.Delivered.{ring-Delivers, links-AreLanes, links-IsZeroed}
use mpi_rma.Compare.Rtt.Flows.{Counts}
use mpi_rma.Compare.Rtt.Stages.{Table, stretches}
use mpi_rma.Compare.Rtt.Rounds.{fresh_table, IsThrough, rtt_ends}
use mpi_rma.Tests.Setup.{instant-Reliable}
use mpi_rma.Tests.Layouts
use mpi_rma.Tests.Layouts.{config, sender, receiver, sender_accepted, receiver_accepted}

abbrev tables : ℕ → Tables
tables r = if r == 0 then sender else receiver

abbrev slots_of : ℕ → Window
slots_of rank = record {
  win = 0;
  len = if rank == 1 then 108 else 64;
  lengths = 64 ∷ 108 ∷ [];
  rank = pos rank;
  ranks = pos 2;
  model = unified;
  closed = false;
}

abbrev acks_of : ℕ → Window
acks_of rank = record {
  win = 1;
  len = 1;
  lengths = 1 ∷ 1 ∷ [];
  rank = pos rank;
  ranks = pos 2;
  model = unified;
  closed = false;
}

abbrev cells : ℕ → ℕ → List ℕ
cells win rank =
    if win == 0 then (if rank == 1 then replicate 108 0 else replicate 64 0) else replicate 1 0

abbrev world : Cells
world = record { next = 2; cell = cells }

laid : (r : ℕ) → r < 2 → layout 2 r (sort_specs config) ≡ ok (tables r)
laid zero h = sender_accepted
laid (suc zero) h = receiver_accepted
laid (suc (suc r)) h = absurd (omega arith)

slots_lengths : (r : ℕ) → r < 2 → (slots_of r).lengths ≡ (tables r).lengths
slots_lengths zero h = refl
slots_lengths (suc zero) h = refl
slots_lengths (suc (suc r)) h = absurd (omega arith)

acks_lengths : (r : ℕ) → r < 2 → (acks_of r).lengths ≡ (tables r).ack_lengths
acks_lengths zero h = refl
acks_lengths (suc zero) h = refl
acks_lengths (suc (suc r)) h = absurd (omega arith)

slot_sizes :
    (d n : ℕ) → get_elem? (64 ∷ 108 ∷ []) d ≡ some n → (length (cells 0 d) ≡ n) × (n < 2 ^ 63)
slot_sizes zero n e = ground arith
slot_sizes (suc zero) n e = ground arith
slot_sizes (suc (suc d)) n e = cc

ack_sizes : (d n : ℕ) → get_elem? (1 ∷ 1 ∷ []) d ≡ some n → (length (cells 1 d) ≡ n) × (n < 2 ^ 63)
ack_sizes zero n e = ground arith
ack_sizes (suc zero) n e = ground arith
ack_sizes (suc (suc d)) n e = cc

zero_list : (n : ℕ) → All {A = ℕ} (λ x. x ≡ 0) (replicate n 0)
zero_list zero = tt
zero_list (suc n) = (refl, zero_list n)

slots_zero : (b : ℕ) → b < 2 → All (λ x. x ≡ 0) (cells 0 b)
slots_zero zero h = zero_list 64
slots_zero (suc zero) h = zero_list 108
slots_zero (suc (suc b)) h = absurd (omega arith)

world-IsRing : IsRing instant 2 (sort_specs config) tables slots_of acks_of world
world-IsRing = record {
  laid = laid;
  one_slots = λ a b. refl;
  one_acks = λ a b. refl;
  two_windows = λ a b e. omega arith;
  slots_rank = λ r. refl;
  acks_rank = λ r. refl;
  slots_lengths = slots_lengths;
  acks_lengths = acks_lengths;
  slots_valid = λ r h. record {
    size = refl;
    mine = refl;
    stored = λ d n e. (slot_sizes d n e).0;
    small = λ d n e. (slot_sizes d n e).1;
  };
  acks_valid = λ r h. record {
    size = refl;
    mine = refl;
    stored = λ d n e. (ack_sizes d n e).0;
    small = λ d n e. (ack_sizes d n e).1;
  };
  slots_zero = λ a b h. slots_zero b h;
  acks_zero = λ a b h. zero_list 1;
}

abbrev links : ℕ → ℕ → Option Link
links = links_of slots_of acks_of 2 tables

abbrev forth : Link
forth = two_ends slots_of acks_of 0 1 Layouts.forth

abbrev back : Link
back = two_ends slots_of acks_of 1 0 Layouts.back

forth_linked : links 0 1 ≡ some forth
forth_linked = refl

back_linked : links 1 0 ≡ some back
back_linked = refl

-- One message each way, and a poll of the first lane.
abbrev sent_forth : Net instant
sent_forth =
    let n = start_net instant world in
    with_flow instant n 0 1 (after_send instant polynomial forth (7 ∷ 8 ∷ []) (flow instant n 0 1))

abbrev sent_both : Net instant
sent_both =
    with_flow instant sent_forth 1 0
      (after_send instant polynomial back (9 ∷ []) (flow instant sent_forth 1 0))

abbrev polled : Net instant
polled =
    with_flow instant sent_both 0 1
      (after_poll instant polynomial forth (flow instant sent_both 0 1))

run : NetReach instant polynomial links (start_net instant world) polled
run =
    then_call
      (then_call
        (then_call begin
          (calls 0 1 forth forth_linked (sends (7 ∷ 8 ∷ []) (omega arith) (omega arith) refl) refl))
        (calls 1 0 back back_linked (sends (9 ∷ []) (omega arith) (omega arith) refl) refl))
      (calls 0 1 forth forth_linked (polls refl) refl)

ring-Delivers_example : Delivers instant polynomial back (flow instant polled 1 0)
ring-Delivers_example =
    ring-Delivers world-IsRing instant-Laws instant-Reliable polynomial run 1 0 back back_linked

-- One round trip, with the ranks' turns in changing order.
abbrev orders : List (List Bool)
orders =
    (true ∷ true ∷ false ∷ [])
    ∷ (true ∷ true ∷ true ∷ false ∷ [])
    ∷ (false ∷ false ∷ true ∷ [])
    ∷ (false ∷ true ∷ [])
    ∷ []

abbrev after_rounds : Table instant
after_rounds = stretches instant polynomial forth back (7 ∷ []) orders (fresh_table instant world 1)

rtt_ends_example :
    IsThrough after_rounds.one
    × IsThrough after_rounds.two
    × Counts instant (flow instant after_rounds.net 0 1) 1 1 1
    × Counts instant (flow instant after_rounds.net 1 0) 1 1 1
rtt_ends_example =
    rtt_ends instant instant-Laws instant-Reliable polynomial (links-AreLanes world-IsRing) forth
      back forth_linked back_linked (7 ∷ []) (omega arith) (omega arith) 1 (omega arith) world
      (links-IsZeroed world-IsRing) orders
      ((refl, refl), ((refl, refl), ((refl, refl), ((refl, refl), tt)))) (omega arith)

NetStep-NetInv_example : NetInv instant polynomial links sent_forth
NetStep-NetInv_example =
    NetStep-NetInv instant instant-Laws instant-Reliable polynomial (links-AreLanes world-IsRing)
      (calls 0 1 forth forth_linked (sends (7 ∷ 8 ∷ []) (omega arith) (omega arith) refl) refl)
      (start-NetInv instant instant-Laws instant-Reliable polynomial (links-AreLanes world-IsRing)
        world (links-IsZeroed world-IsRing))
