-- ===== src/Protocol/Fifo.antt =====
-- What a safe lane promises its callers: a bounded queue. It knows nothing of windows, slots,
-- sequence words or checksums; `Protocol/Refinement.antt` is about the code's answers and these.
use mpi_rma.Base.{ℕ, ◌+◌, List, [], ◌∷◌, ◌++◌, ℤ, length, ltb, leb, max, if◌then◌else◌}
use mpi_rma.Error.{Error, Result, ok, err, full}
use mpi_rma.Ring.Types.{Message}
use mpi_rma.Ring.Poll.Drain.{tagged}

-- A call of either end.
pub data Call : Type 0 where
  send : List ℕ → Call
  poll : Call
  ack : ℕ → Call

-- What the caller sees. A poll shows all that the receiver was ever given.
pub data Answer : Type 0 where
  sent : Result ℕ → Answer
  polled : Result (Unit {0}) → List Message → Answer
  acked : Result (Unit {0}) → Answer

-- The payloads not yet given out, how many were, how many of those were acknowledged, and the
-- messages given.
pub record Fifo : Type 0 where
  pub queue : List (List ℕ)
  pub taken : ℕ
  pub freed : ℕ
  pub given : List Message

abbrev pub empty : Fifo
empty = record { queue = []; taken = 0; freed = 0; given = [] }

module _ (depth : ℕ) (origin : ℤ) where
  -- A send waits in the queue if fewer than `depth` payloads are unacknowledged, a poll empties the
  -- queue, and an acknowledgement frees what was taken.
  unfoldable pub step : Call → Fifo → Answer × Fifo
  step (send bytes) q =
      if ltb (q.taken + length q.queue) (q.freed + depth)
      then (sent (ok (q.taken + length q.queue + 1)), record q { queue = q.queue ++ bytes ∷ [] })
      else (sent (err full), q)
  step poll q =
      let given = q.given ++ tagged origin q.taken q.queue in
      (
        polled (ok tt) given,
        record q { queue = []; taken = q.taken + length q.queue; given = given },
      )
  step (ack n) q =
      if leb n q.taken
      then (acked (ok tt), record q { freed = max q.freed n })
      else (acked (err (Error.ack origin n q.taken)), q)

  -- The answers to a list of calls.
  unfoldable pub answers_to : List Call → Fifo → List Answer
  answers_to [] q = []
  answers_to (c ∷ cs) q = (step c q).0 ∷ answers_to cs (step c q).1
