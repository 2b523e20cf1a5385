-- ===== src/Soak/Sender.antt =====
-- The main thread's rounds: one message to every peer, painted with the round's number.
pub mod Payloads
pub mod Rounds
use mpi_rma.Base.{
  ℕ, zero, suc, ◌+◌, ◌%◌, ◌^◌, Bool, true, false, Option, none, some, List, [], ◌∷◌, ℤ, pos, ltb,
  ◌==◌, add_word, if◌then◌else◌,
}
use mpi_rma.Error.{Result, ok, err, panic}
use mpi_rma.Soak.{Outcome, done, failed, panicked, ◌>>=◌}
use mpi_rma.Soak.Payload.{paint}

-- `push` is a send to a rank that retries while the ring is full; `pause` spins until the round's
-- deadline, of which it is given the number as a `u32`.
module _ {S : Type 0} (push : ℕ → List ℕ → S → Result (Option ℕ) × S) (pause : ℕ → S → S)
    (pace_ns : ℕ) where
  pub record Sender : Type 0 where
    pub buf : List ℕ
    pub waits : ℕ
    pub wait_ns : ℕ
    pub rest : S

  -- The counts of the sends that were refused. A send that fails panics.
  abbrev pub sent : List ℕ → Sender → Result (Option ℕ) × S → Outcome Sender
  sent buf st (ok none, s) = done (record st { buf = buf; rest = s })
  sent buf st (ok (some ns), s) = done (record {
    buf = buf;
    waits = add_word st.waits 1;
    wait_ns = add_word st.wait_ns ns;
    rest = s;
  })
  sent buf st (err e, s) = panicked
  sent buf st (panic, s) = panicked

  unfoldable pub to_peer : (rank sequence destination : ℕ) → Sender → Outcome Sender
  to_peer rank sequence destination st =
      paint (pos rank) sequence st.buf >>= λ buf. sent buf st (push destination buf st.rest)

  -- The loop over the destinations from `d` on, of which `left` are left.
  unfoldable pub round : (rank sequence left d : ℕ) → Sender → Outcome Sender
  unfolding to_peer
  round rank sequence zero d st = done st
  round rank sequence (suc left) d st = elim (d == rank) [
    | true ↦ round rank sequence left (d + 1) st
    | false ↦ to_peer rank sequence d st >>= λ st'. round rank sequence left (d + 1) st'
  ]

  abbrev pub paced : ℕ → Sender → Sender
  paced sequence st =
      if ltb 0 pace_ns then record st { rest = pause (sequence % 2 ^ 32) st.rest } else st

  -- The loop over the rounds from `sequence` on, of which `left` are left.
  unfoldable pub rounds : (rank size left sequence : ℕ) → Sender → Outcome Sender
  unfolding round
  rounds rank size zero sequence st = done st
  rounds rank size (suc left) sequence st = round rank sequence size 0 st >>= λ st'.
      rounds rank size left (sequence + 1) (paced sequence st')
