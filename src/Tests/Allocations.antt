-- ===== src/Tests/Allocations.antt =====
-- Windows and a ring over the concrete library, on a communicator of one rank.
use mpi_rma.Base.{◌≡◌, refl, true, false, [], ◌∷◌, pos}
use mpi_rma.Base.{ℕ, ◌<◌, ◌↔◌, ◌⊎◌, List, arith}
use mpi_rma.Error.{ok, err, ring}
use mpi_rma.Ring.Layout.Sorting.{Spec}
use mpi_rma.Ring.Construct.Agreed.{agree_iff}
use mpi_rma.Mpi.{Comm}
use mpi_rma.Mpi.Model.{Cells, instant}
use mpi_rma.Window.{unified, check}
use mpi_rma.Window.Allocate.{allocate, long, init_epoch, configs_of, differs, extent, extents_fit}
use mpi_rma.Ring.Construct.{agree, any_other, any_row_other, same_words, words_of}

abbrev alone : Comm
alone = record { inter = false; size = pos 1; rank = pos 0 }

abbrev bare : Cells
bare = record { next = 0; cell = λ win rank. [] }

allocate_long :
    (allocate instant alone long 3 bare).0
    ≡ ok (record {
      win = 0;
      len = 3;
      lengths = 3 ∷ [];
      rank = pos 0;
      ranks = pos 1;
      model = unified;
      closed = false;
    })
unfolding allocate configs_of differs extent extents_fit check init_epoch
allocate_long = refl

allocate_zeroes : (allocate instant alone long 3 bare).1.cell 0 0 ≡ 0 ∷ 0 ∷ 0 ∷ []
unfolding allocate configs_of differs extent extents_fit check init_epoch
allocate_zeroes = refl

lone_config :
    (agree instant alone true
      (record { source = pos 0; destination = pos 1; depth = 2; capacity = 4 } ∷ [])
      bare).0
    ≡ ok tt
unfolding agree any_other any_row_other same_words words_of
lone_config = refl

-- Two ranks that hand in one list.
abbrev pair : Comm
pair = record { inter = false; size = pos 2; rank = pos 0 }

abbrev one_lane : ℕ → List Spec
one_lane r = record { source = pos 0; destination = pos 1; depth = 2; capacity = 4 } ∷ []

agree_iff_example :
    (((agree instant pair true (one_lane 0) bare).0 ≡ ok tt)
      ↔ ((r : ℕ) → r < 2 → (true ≡ true) × (one_lane r ≡ one_lane 0)))
    × (((agree instant pair true (one_lane 0) bare).0 ≡ ok tt)
        ⊎ ((agree instant pair true (one_lane 0) bare).0
            ≡ err (ring "configuration differs between ranks")))
unfolding words_of
agree_iff_example =
    agree_iff instant pair 2 refl 0 (omega arith) (λ r. true) one_lane bare refl (λ same. refl)
      (λ r h. ((omega arith, omega arith), tt))
