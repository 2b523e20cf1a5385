-- ===== src/Compare/Rtt/Stages.antt =====
-- `ring_rtt` on both ranks: where a round stands.
use mpi_rma.Base.{ℕ, ◌+◌, ◌*◌, ◌≤◌, ◌≡◌, Bool, true, false, Option, List, [], ◌∷◌}
use mpi_rma.Mpi.{Mpi}
use mpi_rma.Crc.{Crc}
use mpi_rma.Protocol.{Link}
use mpi_rma.Protocol.Network.{Net}
use mpi_rma.Compare.Rtt.{Side}
use mpi_rma.Compare.Rtt.Table.{Point, SideIs, rank_turn}

-- The two ranks over their ring.
pub record Table (m : Mpi) : Type 0 where
  pub net : Net m
  pub one : Side
  pub two : Side

module _ (m : Mpi) (c : Crc) (k j : Link) (bytes : List ℕ) where
  abbrev pub step_one : Table m → Table m
  step_one t =
      let r = rank_turn m c true 0 1 k j bytes t.one t.net in
      record { net = r.1; one = r.0; two = t.two }

  abbrev pub step_two : Table m → Table m
  step_two t =
      let r = rank_turn m c false 1 0 j k bytes t.two t.net in
      record { net = r.1; one = t.one; two = r.0 }

  -- One turn after the other: `true` stands for rank 0.
  abbrev pub interleaved : List Bool → Table m → Table m
  interleaved [] t = t
  interleaved (true ∷ rest) t = interleaved rest (step_one t)
  interleaved (false ∷ rest) t = interleaved rest (step_two t)

  abbrev pub stretches : List (List Bool) → Table m → Table m
  stretches [] t = t
  stretches (turns ∷ rest) t = stretches rest (interleaved turns t)

-- A stretch in which a rank gets a turn.
abbrev pub gives : Bool → List Bool → Bool
gives first [] = false
gives true (true ∷ rest) = true
gives true (false ∷ rest) = gives true rest
gives false (true ∷ rest) = gives false rest
gives false (false ∷ rest) = true

-- Both ranks get a turn, in any order and any number.
abbrev pub IsFair : List Bool → Type 0
IsFair turns = (gives true turns ≡ true) × (gives false turns ≡ true)

module _ (m : Mpi) (c : Crc) (links : ℕ → ℕ → Option Link) (total : ℕ) where
  -- Where a round stands, of which `need` turns are needed to the end; the flag says whether it is
  -- the turn of rank 0.
  pub data Stage (t : Table m) (need : ℕ) : Bool → Type 0 where
    idle :
        (r left : ℕ)
        → r + left ≡ total
        → need ≡ 4 * left
        → Point m c links t.net 0 1 r r r r r r
        → SideIs t.one left false
        → SideIs t.two left true
        → Stage t need true
    ping :
        (r left : ℕ)
        → r + left + 1 ≡ total
        → need ≡ 4 * left + 3
        → Point m c links t.net 0 1 (r + 1) r r r r r
        → SideIs t.one (left + 1) true
        → SideIs t.two (left + 1) true
        → Stage t need false
    got :
        (r left : ℕ)
        → r + left + 1 ≡ total
        → need ≡ 4 * left + 2
        → Point m c links t.net 0 1 (r + 1) (r + 1) (r + 1) r r r
        → SideIs t.one (left + 1) true
        → SideIs t.two (left + 1) false
        → Stage t need false
    pong :
        (r left : ℕ)
        → r + left + 1 ≡ total
        → need ≡ 4 * left + 1
        → Point m c links t.net 0 1 (r + 1) (r + 1) (r + 1) (r + 1) r r
        → SideIs t.one (left + 1) true
        → SideIs t.two left true
        → Stage t need true

  -- At most `bound` turns are needed.
  pub record Within (t : Table m) (bound : ℕ) : Type 0 where
    pub need : ℕ
    pub first : Bool
    pub stage : Stage t need first
    pub near : need ≤ bound
