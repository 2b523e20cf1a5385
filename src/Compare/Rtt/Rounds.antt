-- ===== src/Compare/Rtt/Rounds.antt =====
-- `ring_rtt` on both ranks, in any interleaving.
use mpi_rma.Base.{
  ℕ, suc, ◌+◌, ◌-◌, ◌*◌, ◌≤◌, ◌<◌, ◌≡◌, refl, ◌∙◌, arith, Bool, true, false, Option, some, List, [],
  ◌∷◌, length, word_mod, All,
}
use mpi_rma.Mpi.{Mpi, Laws, Reliable}
use mpi_rma.Crc.{Crc}
use mpi_rma.Protocol.{Link}
use mpi_rma.Protocol.Network.{flow}
use mpi_rma.Protocol.Network.Runs.{AreLanes}
use mpi_rma.Compare.Rtt.{Side}
use mpi_rma.Compare.Rtt.Flows.{Counts}
use mpi_rma.Compare.Rtt.Stages.{
  Table, step_one, step_two, interleaved, stretches, IsFair, gives, Stage, idle, ping, got, pong,
  Within,
}
use mpi_rma.Compare.Rtt.Moves.{one_moves, two_moves, one_waits, two_waits}
use mpi_rma.Protocol.Delivery.{IsZeroed}
use mpi_rma.Protocol.Network.Runs.{start_net, start-NetInv}

-- Both ranks before their first round.
abbrev pub fresh_side : (total : ℕ) → Bool → Side
fresh_side total awaiting = record {
  left = total;
  awaiting = awaiting;
  refusals = 0;
  seen = 0;
  broken = false;
}

abbrev pub fresh_table : (m : Mpi) → m.World → ℕ → Table m
fresh_table m w total = record {
  net = start_net m w;
  one = fresh_side total false;
  two = fresh_side total true;
}

-- A rank that is through, and was never refused.
abbrev pub IsThrough : Side → Type 0
IsThrough s = (s.left ≡ 0) × (s.refusals ≡ 0) × (s.broken ≡ false)

module _ (m : Mpi) (laws : Laws m) (reliable : Reliable m) (c : Crc) {links : ℕ → ℕ → Option Link}
    (lanes : AreLanes links) (k j : Link) (there : links 0 1 ≡ some k) (back : links 1 0 ≡ some j)
    (bytes : List ℕ) (fits : length bytes ≤ k.lane.capacity)
    (fits' : length bytes ≤ j.lane.capacity) (total : ℕ) (room : total + 2 < word_mod) where
  abbrev Near : Table m → ℕ → Type 0
  Near = Within m c links total

  abbrev At : Table m → ℕ → Bool → Type 0
  At = Stage m c links total

  closer : (t : Table m) (bound bound' : ℕ) → Near t bound → bound ≤ bound' → Near t bound'
  closer t bound bound' h le = record {
    need = h.need;
    first = h.first;
    stage = h.stage;
    near = omega (arith, h.near);
  }

  settled : (t : Table m) (need : ℕ) (first : Bool) → At t need first → Near t need
  settled t need first h = record { need = need; first = first; stage = h; near = omega arith }

  one_step :
      (t : Table m) (need : ℕ) (first : Bool)
      → At t need first
      → Near (step_one m c k j bytes t) need
  one_step t need true h =
      closer (step_one m c k j bytes t) (need - 1) need
        (one_moves m laws reliable c lanes k j there back bytes fits fits' total room t need h)
        (omega arith)
  one_step t need false h =
      settled (step_one m c k j bytes t) need false
        (one_waits m laws reliable c lanes k j there back bytes fits fits' total room t need h)

  two_step :
      (t : Table m) (need : ℕ) (first : Bool)
      → At t need first
      → Near (step_two m c k j bytes t) need
  two_step t need false h =
      closer (step_two m c k j bytes t) (need - 1) need
        (two_moves m laws reliable c lanes k j there back bytes fits fits' total room t need h)
        (omega arith)
  two_step t need true h =
      settled (step_two m c k j bytes t) need true
        (two_waits m laws reliable c lanes k j there back bytes fits fits' total room t need h)

  -- Any turns keep what is needed from growing.
  any_turns :
      (turns : List Bool) (t : Table m) (bound : ℕ)
      → Near t bound
      → Near (interleaved m c k j bytes turns t) bound
  any_turns [] t bound h = h
  any_turns (true ∷ rest) t bound h =
      let u = step_one m c k j bytes t in
      any_turns rest u bound (closer u h.need bound (one_step t h.need h.first h.stage) h.near)
  any_turns (false ∷ rest) t bound h =
      let u = step_two m c k j bytes t in
      any_turns rest u bound (closer u h.need bound (two_step t h.need h.first h.stage) h.near)

  -- Turns among which is one of the rank that it is up to bring the end nearer.
  awaited_turn :
      (turns : List Bool) (t : Table m) (need : ℕ) (first : Bool)
      → At t need first
      → gives first turns ≡ true
      → Near (interleaved m c k j bytes turns t) (need - 1)
  awaited_turn [] t need first h e = cc
  awaited_turn (true ∷ rest) t need true h e =
      any_turns rest (step_one m c k j bytes t) (need - 1)
        (one_moves m laws reliable c lanes k j there back bytes fits fits' total room t need h)
  awaited_turn (true ∷ rest) t need false h e =
      awaited_turn rest (step_one m c k j bytes t) need false
        (one_waits m laws reliable c lanes k j there back bytes fits fits' total room t need h) e
  awaited_turn (false ∷ rest) t need true h e =
      awaited_turn rest (step_two m c k j bytes t) need true
        (two_waits m laws reliable c lanes k j there back bytes fits fits' total room t need h) e
  awaited_turn (false ∷ rest) t need false h e =
      any_turns rest (step_two m c k j bytes t) (need - 1)
        (two_moves m laws reliable c lanes k j there back bytes fits fits' total room t need h)

  fair_turns :
      (turns : List Bool) (t : Table m) (need : ℕ) (first : Bool)
      → At t need first
      → IsFair turns
      → Near (interleaved m c k j bytes turns t) (need - 1)
  fair_turns turns t need true h fair = awaited_turn turns t need true h fair.0
  fair_turns turns t need false h fair = awaited_turn turns t need false h fair.1

  rounds_Near :
      (schedule : List (List Bool)) (t : Table m) (bound : ℕ)
      → All IsFair schedule
      → Near t bound
      → Near (stretches m c k j bytes schedule t) (bound - length schedule)
  rounds_Near [] t bound fair h = closer t bound (bound - 0) h (omega arith)
  rounds_Near (turns ∷ rest) t bound fair h =
      let n = fair_turns turns t h.need h.first h.stage fair.0 in
      let u = interleaved m c k j bytes turns t in
      let near = closer u (h.need - 1) (bound - 1) n (omega (arith, h.near)) in
      closer (stretches m c k j bytes rest u) (bound - 1 - length rest) (bound - suc (length rest))
        (rounds_Near rest u (bound - 1) fair.1 near) (omega arith)

  start-Near :
      (w : m.World)
      → ((a b : ℕ) (l : Link) → links a b ≡ some l → IsZeroed m l w)
      → Near (fresh_table m w total) (4 * total)
  start-Near w zeroed = record {
    need = 4 * total;
    first = true;
    stage =
        idle 0 total (omega arith) refl
          (record {
            inv = start-NetInv m laws reliable c lanes w zeroed;
            out = record { sent_count = refl; seen_count = refl; acked_count = refl };
            inn = record { sent_count = refl; seen_count = refl; acked_count = refl };
          })
          (refl, refl, refl, refl) (refl, refl, refl, refl);
    near = omega arith;
  }

  finished :
      (t : Table m) (need : ℕ) (first : Bool)
      → need ≡ 0
      → At t need first
      → IsThrough t.one
        × IsThrough t.two
        × Counts m (flow m t.net 0 1) total total total
        × Counts m (flow m t.net 1 0) total total total
  finished t need first z (idle r left sum e p s q) =
      let over : left ≡ 0 = omega arith in
      let all : r ≡ total = omega arith in
      ((s.0 ∙ over, s.2, s.3), (q.0 ∙ over, q.2, q.3), rw (← all) p.out, rw (← all) p.inn)
  finished t need first z (ping r left sum e p s q) = absurd (omega arith)
  finished t need first z (got r left sum e p s q) = absurd (omega arith)
  finished t need first z (pong r left sum e p s q) = absurd (omega arith)

  -- On a safe ring with a lane each way between two ranks, over zeroed windows and with a library
  -- that keeps its laws and does not fail, for a payload that fits both lanes and while sequence
  -- numbers are left: in every order of the two ranks' turns that has four stretches for every
  -- round, in each of which both ranks get a turn (and any number of them), both have ended their
  -- loop. No send was ever refused and nothing panicked, so that the time spent refused is zero,
  -- and each lane has carried one message a round, all of them received and acknowledged.
  pub rtt_ends :
      (w : m.World)
      → ((a b : ℕ) (l : Link) → links a b ≡ some l → IsZeroed m l w)
      → (schedule : List (List Bool)) → All IsFair schedule
      → 4 * total ≤ length schedule
      → let t = stretches m c k j bytes schedule (fresh_table m w total) in
        IsThrough t.one
        × IsThrough t.two
        × Counts m (flow m t.net 0 1) total total total
        × Counts m (flow m t.net 1 0) total total total
  rtt_ends w zeroed schedule fair enough =
      let t = stretches m c k j bytes schedule (fresh_table m w total) in
      let n = rounds_Near schedule (fresh_table m w total) (4 * total) fair (start-Near w zeroed) in
      finished t n.need n.first (omega (arith, n.near)) n.stage
