-- ===== src/Tests/Images.antt =====
-- A message's image, and a snapshot torn between two messages.
use mpi_rma.Base.{ℕ, ◌≤◌, ◌<◌, ◌≡◌, ◌≢◌, ◌↔◌, refl, arith, List, [], ◌∷◌, ◌++◌}
use mpi_rma.Base.{slice, from_le, not_word, word_mod, replicate}
use mpi_rma.Crc.{polynomial}
use mpi_rma.Ring.Types.{header, Frame}
use mpi_rma.Ring.Image.{build, inspect, checksum, intact, broken, vacant}
use mpi_rma.Ring.Image.RoundTrip.{inspect-build}
use mpi_rma.Ring.Image.Reject.{head, tail, declared, stored, inspect_iff, inspect_torn}
use mpi_rma.Tests.Setup.{lane, lane-IsLane}

inspect-build_example :
    inspect polynomial lane (build polynomial lane (9 ∷ []) 3 (7 ∷ 8 ∷ []))
    ≡ intact (record { sequence = 3; bytes = 7 ∷ 8 ∷ [] })
inspect-build_example =
    inspect-build polynomial lane (9 ∷ []) 3 (7 ∷ 8 ∷ []) lane-IsLane (omega arith)
      (λ e. omega arith) (omega arith)

-- The head of message 3 with the guard of message 1.
abbrev torn : List ℕ
torn = 3 ∷ replicate 31 0 ++ 254 ∷ replicate 7 255

torn-head : head polynomial lane torn ≡ 3
unfolding from_le
torn-head = refl

torn-tail : tail polynomial lane torn ≡ not_word 1
unfolding from_le
torn-tail = refl

inspect_torn_example : inspect polynomial lane torn ≡ broken
inspect_torn_example =
    inspect_torn polynomial lane torn 1 (λ e. omega (arith, torn-head)) (rw torn-head (omega arith))
      (omega arith) torn-tail (λ e. omega (arith, torn-head))

abbrev sound : List ℕ
sound = build polynomial lane [] 3 (7 ∷ 8 ∷ [])

inspect_iff_example :
    (inspect polynomial lane sound ≡ intact (record { sequence = 3; bytes = 7 ∷ 8 ∷ [] })) ↔ (
      (head polynomial lane sound ≢ 0)
      × (tail polynomial lane sound ≡ not_word (head polynomial lane sound))
      × (declared polynomial lane sound < word_mod)
      × (declared polynomial lane sound ≤ 12)
      × (stored polynomial lane sound
          ≡ checksum polynomial
              (head polynomial lane sound)
              (declared polynomial lane sound)
              (slice header (declared polynomial lane sound) sound))
      × (◌≡◌ {A = Frame}
          (record { sequence = 3; bytes = 7 ∷ 8 ∷ [] })
          (record {
            sequence = head polynomial lane sound;
            bytes = slice header (declared polynomial lane sound) sound;
          })))
inspect_iff_example =
    inspect_iff polynomial lane sound (record { sequence = 3; bytes = 7 ∷ 8 ∷ [] })

-- A slot of zeros was never written.
inspect_zeros : inspect polynomial lane (replicate 40 0) ≡ vacant
unfolding inspect from_le
inspect_zeros = refl
