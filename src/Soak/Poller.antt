-- ===== src/Soak/Poller.antt =====
-- The poller thread: it checks each batch against what it saw before, acknowledges it, and ends on
-- an empty poll after the senders' barrier.
pub mod Checks
pub mod Tracks
pub mod Polls
pub mod Live
pub mod Turns
pub mod Whole
use mpi_rma.Base.{
  ℕ, ◌+◌, max, Bool, true, false, not, ◌&&◌, Option, none, some, List, [], ◌∷◌, ℤ, eqb_ℤ, as_usize,
  get_elem?, set, length, leb, ◌==◌, add_word,
}
use mpi_rma.Error.{Error, Result, ok, err, panic}
use mpi_rma.Ring.Types.{Message}
use mpi_rma.Soak.{
  Outcome, done, failed, panicked, ◌>>=◌, poll_failed, backwards, skipped, ack_failed,
}
use mpi_rma.Soak.Payload.{verify}

-- `seen` and `total` live as long as the thread, `furthest` for one batch.
pub record Batch : Type 0 where
  pub seen : List ℕ
  pub total : ℕ
  pub furthest : List (ℤ × ℕ)

-- `*furthest.entry(origin).or_insert(0) = max`.
unfoldable pub advance_entry : ℤ → ℕ → List (ℤ × ℕ) → List (ℤ × ℕ)
advance_entry origin sequence [] = (origin, max 0 sequence) ∷ []
advance_entry origin sequence ((o, q) ∷ rest) = elim (eqb_ℤ o origin) [
  | true ↦ (o, max q sequence) ∷ rest
  | false ↦ (o, q) ∷ advance_entry origin sequence rest
]

abbrev pub noted : Message → Batch → Batch
noted m b = record {
  seen = set b.seen (as_usize m.origin) m.sequence;
  total = add_word b.total 1;
  furthest = advance_entry m.origin m.sequence b.furthest;
}

-- The checks of one message against the last sequence number of its origin.
unfoldable pub check_sequence : Bool → Message → (previous : ℕ) → Batch → Outcome Batch
check_sequence safe m previous b = elim (leb m.sequence previous) [
  | true ↦ failed (backwards m.origin m.sequence previous)
  | false ↦ elim (safe && not (m.sequence == add_word previous 1)) [
    | true ↦ failed (skipped m.origin (add_word previous 1) m.sequence)
    | false ↦ done (noted m b)
  ]
]

unfoldable pub check_message : Bool → Message → Batch → Outcome Batch
unfolding check_sequence
check_message safe m b = verify m >>= λ _. elim (get_elem? b.seen (as_usize m.origin)) [
  | none ↦ panicked
  | some previous ↦ check_sequence safe m previous b
]

unfoldable pub check_batch : Bool → List Message → Batch → Outcome Batch
unfolding check_message
check_batch safe [] b = done b
check_batch safe (m ∷ ms) b = check_message safe m b >>= λ b'. check_batch safe ms b'

abbrev pub is_empty : List Message → Bool
is_empty [] = true
is_empty (m ∷ ms) = false

-- The rest of the program as the thread meets it: the ring's calls, and the flag that the main
-- thread sets after its barrier. `order` is the order in which a `HashMap` is walked.
module _ {S : Type 0} (safe : Bool) (poll : S → Result (List Message) × S)
    (ack : ℤ → ℕ → S → Result (Unit {0}) × S) (barrier_passed : S → Bool)
    (order : List (ℤ × ℕ) → List (ℤ × ℕ)) where
  unfoldable pub ack_all : List (ℤ × ℕ) → S → Outcome (Unit {0}) × S
  ack_all [] s = (done tt, s)
  ack_all ((origin, sequence) ∷ rest) s = elim (ack origin sequence s).0 [
    | ok _ ↦ ack_all rest (ack origin sequence s).1
    | err e ↦ (failed (ack_failed origin e), (ack origin sequence s).1)
    | panic ↦ (panicked, (ack origin sequence s).1)
  ]

  -- A batch: what the thread has seen after it, and whether it was empty.
  unfoldable pub handle : List Message → (seen : List ℕ) → (total : ℕ) → S → Outcome Batch × S
  unfolding check_batch ack_all
  handle batch seen total s =
      elim (check_batch safe batch (record { seen = seen; total = total; furthest = [] })) [
        | failed e ↦ (failed e, s)
        | panicked ↦ (panicked, s)
        | done b ↦ let r = ack_all (order b.furthest) s in (r.0 >>= λ _. done b, r.1)
      ]

  -- The loop. One element of the list is what the other threads do after an empty poll or between
  -- two turns; `none` is a thread that is still running when the list ends. The last total is the
  -- one that `count` holds.
  unfoldable pub run :
      List (S → S) → (seen : List ℕ) → (total : ℕ) → S → Option (Outcome (List ℕ × ℕ) × S)
  unfolding handle
  run [] seen total s = none
  run (others ∷ rest) seen total s =
      let finished = barrier_passed s in
      elim (poll s).0 [
        | err e ↦ some (failed (poll_failed e), (poll s).1)
        | panic ↦ some (panicked, (poll s).1)
        | ok batch ↦
            let r = handle batch seen total (poll s).1 in
            elim r.0 [
              | failed e ↦ some (failed e, r.1)
              | panicked ↦ some (panicked, r.1)
              | done b ↦ elim (finished && is_empty batch) [
                | true ↦ some (done (b.seen, b.total), r.1)
                | false ↦ run rest b.seen b.total (others r.1)
              ]
            ]
      ]
