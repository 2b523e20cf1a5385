-- ===== src/Tests/Soaks.antt =====
-- The parts of examples/soak.rs, of examples/compare.rs and of their noise on small inputs.
use mpi_rma.Base.{
  ℕ, ◌≤◌, ◌<◌, ◌≡◌, ◌↔◌, ◌⊎◌, refl, arith, Bool, true, false, Option, none, some, List, [], ◌∷◌,
  ◌++◌, pos, replicate, get_elem?, All, le_bytes, from_le,
}
use mpi_rma.Error.{Result, ok}
use mpi_rma.Ring.Types.{Message}
use mpi_rma.Soak.{done}
use mpi_rma.Soak.Payload.{paint, fill_from, wanted, verify, check_fill, verify_iff}
use mpi_rma.Soak.Sender.{Sender, rounds}
use mpi_rma.Soak.Sender.Payloads.{payloads, handed_to}
use mpi_rma.Soak.Sender.Rounds.{rounds_hand}
use mpi_rma.Soak.Poller.{Batch, check_batch, check_message, check_sequence, advance_entry}
use mpi_rma.Soak.Poller.Checks.{Rises, from_rank, check_batch_sound}
use mpi_rma.Noise.{
  Pair, Turn, lower_moves, higher_moves, Turns, none_yet, then_turn, Events, flagged, turns,
  nothing, then_event, first_state, IsOver, sending, awaiting, answering, noise_packet, lower_turn,
  higher_turn, heard, send_returns,
}
use mpi_rma.Noise.Ending.{noise_ends}

-- The third payload of rank 1, of 14 bytes.
abbrev third : List ℕ
third = 1 ∷ 0 ∷ 0 ∷ 0 ∷ 3 ∷ 0 ∷ 0 ∷ 0 ∷ 0 ∷ 0 ∷ 0 ∷ 0 ∷ 3 ∷ 4 ∷ []

third_painted : paint (pos 1) 3 (replicate 14 9) ≡ done third
unfolding paint fill_from wanted le_bytes
third_painted = refl

abbrev third_message : Message
third_message = record { origin = pos 1; sequence = 3; bytes = third }

third_bytes : All (λ b. b < 256) third
third_bytes = ground arith

verify_iff_example : (verify third_message ≡ done tt) ↔ (paint (pos 1) 3 third ≡ done third)
verify_iff_example = verify_iff third_message (omega arith) (omega arith) third_bytes

-- A poller that had seen the second message of rank 1.
abbrev before : Batch
before = record { seen = 0 ∷ 2 ∷ []; total = 2; furthest = [] }

abbrev after : Batch
after = record { seen = 0 ∷ 3 ∷ []; total = 3; furthest = (pos 1, 3) ∷ [] }

third_passes : check_batch true (third_message ∷ []) before ≡ done after
unfolding check_batch check_message check_sequence advance_entry verify check_fill wanted from_le
third_passes = refl

check_batch_sound_example :
    All (λ m. verify m ≡ done tt) (third_message ∷ [])
    × (last : ℕ) × (get_elem? after.seen 1 ≡ some last)
    × Rises true 2 (from_rank 1 (third_message ∷ [])) last
check_batch_sound_example =
    check_batch_sound true (third_message ∷ []) before after third_passes 1 2 refl

-- A ring that keeps a list of what it is handed.
abbrev log : ℕ → List ℕ → List (ℕ × List ℕ) → Result (Option ℕ) × List (ℕ × List ℕ)
log d bytes xs = (ok none, xs ++ (d, bytes) ∷ [])

abbrev no_pause : ℕ → List (ℕ × List ℕ) → List (ℕ × List ℕ)
no_pause n xs = xs

abbrev sender : Sender log no_pause 0
sender = record { buf = replicate 14 0; waits = 0; wait_ns = 0; rest = [] }

rounds_hand_example :
    (st : Sender log no_pause 0) × (rounds log no_pause 0 1 3 2 1 sender ≡ done st)
    × (handed_to 2 st.rest ≡ handed_to 2 [] ++ payloads 1 14 2 1)
rounds_hand_example =
    rounds_hand log no_pause 0 (λ xs. xs) (λ d bytes xs. (none, refl, refl)) (λ n xs. refl) 1 14
      (omega arith) 3 2 1 sender refl 2 (omega arith) (λ e. omega arith)

-- A pair whose sends never return early, from the start of a round to the end.
abbrev late : Pair → Bool
late s = false

abbrev posted : Pair
posted = record first_state { lower = sending; to_higher = noise_packet 0 late late ∷ [] }

abbrev told : Pair
told = record posted { stop = true }

told_run : Events 0 late late first_state told
unfolding lower_turn
told_run = then_event (then_event nothing (turns (lower_moves refl))) (flagged refl)

abbrev taken : Pair
taken = record told { higher = answering; to_higher = [] }

abbrev freed : Pair
freed = record taken { lower = awaiting }

-- The lower rank's send has not returned before the higher one received its message.
told-Turns : Turns 0 late late told 2 freed
unfolding lower_turn higher_turn heard send_returns
told-Turns =
    then_turn {t = taken} (then_turn {t = told} none_yet (higher_moves refl)) (lower_moves refl)

noise_ends_example : (2 ≤ 9) × (IsOver freed ⊎ ((u : Pair) × Turn 0 late late freed u))
noise_ends_example = noise_ends 0 late late told_run refl told-Turns
