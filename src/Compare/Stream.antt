-- ===== src/Compare/Stream.antt =====
-- `ring_stream`: one rank pushes messages as fast as it can, the other drains them.
use mpi_rma.Base.{
  ℕ, zero, suc, ◌*◌, ◌/◌, ◌^◌, ◌≤◌, ◌<◌, ◌≡◌, arith, min, max, Bool, true, false, not, ◌&&◌, Option,
  none, some, List, [], ◌∷◌, ℤ, pos, ltb, leb, length, add_word, All, if◌then◌else◌,
}
use mpi_rma.Error.{Result, ok, err, panic}
use mpi_rma.Ring.Types.{Message}
use mpi_rma.Ring.Layout.Sorting.{Spec}

abbrev pub sizes : List ℕ
sizes = 64 ∷ 512 ∷ 4096 ∷ 32768 ∷ 262144 ∷ []

-- The bytes that one row moves at most, and the buffer of the buffered sends.
abbrev pub stream_bytes : ℕ
stream_bytes = 64 * 2 ^ 20

abbrev pub bsend_buf : ℕ
bsend_buf = 512 * 2 ^ 20

-- The message count of a stream, and the rounds of a round-trip measurement.
unfoldable pub stream_count : (messages payload : ℕ) → ℕ
stream_count messages payload = min messages (max (stream_bytes / payload) 64)

unfoldable pub iters : (payload : ℕ) → ℕ
iters payload = if leb 32768 payload then 500 else 2000

unfoldable pub duo_lanes : (depth payload : ℕ) → List Spec
duo_lanes depth payload =
    record { source = pos 0; destination = pos 1; depth = depth; capacity = payload }
    ∷ record { source = pos 1; destination = pos 0; depth = depth; capacity = payload }
    ∷ []

-- For every payload size that is measured: a stream keeps to the ceiling on its bytes, and so fits
-- the buffer of the buffered sends.
pub stream_fits :
    (messages : ℕ)
    → All (λ payload. stream_count messages payload * payload ≤ stream_bytes) sizes
      × (stream_bytes < bsend_buf)
unfolding stream_count
stream_fits messages =
    ((omega arith, (omega arith, (omega arith, (omega arith, (omega arith, tt))))), omega arith)

-- The sender's loop; `refused` adds up the nanoseconds spent refused. `unwrap` panics on an error.
module _ {S : Type 0} (push : S → Result (Option ℕ) × S) where
  abbrev pub unwrap_or_zero : Option ℕ → ℕ
  unwrap_or_zero none = 0
  unwrap_or_zero (some n) = n

  unfoldable pub push_all : (left refused : ℕ) → S → Result ℕ × S
  push_all zero refused s = (ok refused, s)
  push_all (suc left) refused s = elim (push s).0 [
    | ok waited ↦ push_all left (add_word refused (unwrap_or_zero waited)) (push s).1
    | err e ↦ (panic, (push s).1)
    | panic ↦ (panic, (push s).1)
  ]

unfoldable pub furthest : List Message → ℕ → ℕ
furthest [] n = n
furthest (m ∷ ms) n = furthest ms (max n m.sequence)

abbrev pub no_messages : List Message → Bool
no_messages [] = true
no_messages (m ∷ ms) = false

-- The receiver's loop. `probe` and `receive` are about the sender's message that it has stopped.
module _ {S : Type 0} (poll : S → Result (List Message) × S)
    (ack : ℤ → ℕ → S → Result (Unit {0}) × S) (probe : S → Bool) (receive : S → S) where
  unfoldable pub ack_furthest : ℕ → S → Result (Unit {0}) × S
  ack_furthest n s = if ltb 0 n then ack (pos 0) n s else (ok tt, s)

  -- One turn: it ends with the count, goes on, or panics.
  pub data Turned : Type 0 where
    ends : (got : ℕ) → S → Turned
    goes_on : (got : ℕ) → (stopping : Bool) → S → Turned
    unwinds : S → Turned

  unfoldable pub after_ack : (got : ℕ) → (stopping empty : Bool) → S → Turned
  after_ack got stopping empty s =
      if stopping && empty
      then ends got s
      else if not stopping && probe s
      then goes_on got true (receive s)
      else goes_on got stopping s

  unfoldable pub acked_turn :
      (S → S) → (got : ℕ) → (stopping empty : Bool) → Result (Unit {0}) × S → Turned
  acked_turn others got stopping empty (ok _, s) = after_ack got stopping empty (others s)
  acked_turn others got stopping empty (err e, s) = unwinds s
  acked_turn others got stopping empty (panic, s) = unwinds s

  unfoldable pub polled_turn :
      (S → S) → (S → S) → (got : ℕ) → (stopping : Bool) → Result (List Message) × S → Turned
  unfolding furthest ack_furthest acked_turn
  polled_turn first second got stopping (ok batch, s) =
      acked_turn second (add_word got (length batch)) stopping (no_messages batch)
        (ack_furthest (furthest batch 0) (first s))
  polled_turn first second got stopping (err e, s) = unwinds s
  polled_turn first second got stopping (panic, s) = unwinds s

  -- What the others do in one turn: between its poll and its acknowledgement, from there to its
  -- probe, and after it.
  pub record Others : Type 0 where
    pub polled : S → S
    pub acked : S → S
    pub probed : S → S

  -- `none` is a loop that is still running when the list ends.
  unfoldable pub drain_loop :
      List Others → (got : ℕ) → (stopping : Bool) → S → Option (Result ℕ × S)
  unfolding polled_turn
  drain_loop [] got stopping s = none
  drain_loop (others ∷ rest) got stopping s =
      elim (polled_turn others.polled others.acked got stopping (poll s)) [
        | ends n t ↦ some (ok n, t)
        | goes_on n b t ↦ drain_loop rest n b (others.probed t)
        | unwinds t ↦ some (panic, t)
      ]

  pub after_ack_told :
      (got : ℕ) (empty : Bool) (s : S)
      → probe s ≡ true
      → after_ack got false empty s ≡ goes_on got true (receive s)
  unfolding after_ack
  after_ack_told got empty s e = rw (after_ack, e)

  pub after_ack_untold :
      (got : ℕ) (empty : Bool) (s : S)
      → probe s ≡ false
      → after_ack got false empty s ≡ goes_on got false s
  unfolding after_ack
  after_ack_untold got empty s e = rw (after_ack, e)

  pub drain_loop_ends :
      (others : Others) (rest : List Others) (got n : ℕ) (stopping : Bool) (s t : S)
      → polled_turn others.polled others.acked got stopping (poll s) ≡ ends n t
      → drain_loop (others ∷ rest) got stopping s ≡ some (ok n, t)
  unfolding drain_loop
  drain_loop_ends others rest got n stopping s t e = rw (drain_loop, e)

  pub drain_loop_on :
      (others : Others) (rest : List Others) (got n : ℕ) (stopping b : Bool) (s t : S)
      → polled_turn others.polled others.acked got stopping (poll s) ≡ goes_on n b t
      → drain_loop (others ∷ rest) got stopping s ≡ drain_loop rest n b (others.probed t)
  unfolding drain_loop
  drain_loop_on others rest got n stopping b s t e = rw (drain_loop, e)
