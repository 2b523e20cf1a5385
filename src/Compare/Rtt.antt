-- ===== src/Compare/Rtt.antt =====
-- `ring_rtt`: one message each way, again and again. A turn is one attempt to send, or one poll of
-- the loop that awaits a message.
pub mod Flows
pub mod Table
pub mod Stages
pub mod Moves
pub mod Rounds
use mpi_rma.Base.{ℕ, ◌+◌, ◌-◌, Bool, true, false, Option, none, some, List, [], ◌∷◌, ℤ, ◌==◌}
use mpi_rma.Base.{if◌then◌else◌, ◌≡◌, ap, ◌∙◌, arith}
use mpi_rma.Error.{Error, Result, ok, err, panic, full}
use mpi_rma.Ring.Types.{Message}

-- One rank in its loop: the rounds that are left, whether it awaits the other's message, the
-- attempts that were refused, and the last sequence number it has seen. `unwrap` panics.
pub record Side : Type 0 where
  pub left : ℕ
  pub awaiting : Bool
  pub refusals : ℕ
  pub seen : ℕ
  pub broken : Bool

-- `batch.last()`.
abbrev pub last : List Message → Option Message
last [] = none
last (m ∷ []) = some m
last (m ∷ n ∷ ms) = last (n ∷ ms)

-- The rank that sends first ends its round when it has received; the other one when it has sent.
abbrev pub sent_one : (first : Bool) → Side → Side
sent_one true s = record s { awaiting = true }
sent_one false s = record s { awaiting = true; left = s.left - 1 }

abbrev pub got_one : (first : Bool) → ℕ → Side → Side
got_one true n s = record s { awaiting = false; seen = n; left = s.left - 1 }
got_one false n s = record s { awaiting = false; seen = n }

module _ {S : Type 0} (first : Bool) (send : S → Result ℕ × S)
    (poll : S → Result (List Message) × S) (ack : ℕ → S → Result (Unit {0}) × S) where
  -- An attempt of `push`.
  abbrev pub after_attempt : Side → Result ℕ × S → Side × S
  after_attempt side (ok n, s) = (sent_one first side, s)
  after_attempt side (err full, s) = (record side { refusals = side.refusals + 1 }, s)
  after_attempt side (err e, s) = (record side { broken = true }, s)
  after_attempt side (panic, s) = (record side { broken = true }, s)

  abbrev pub after_ack : Side → ℕ → Result (Unit {0}) × S → Side × S
  after_ack side n (ok _, s) = (got_one first n side, s)
  after_ack side n (err e, s) = (record side { broken = true }, s)
  after_ack side n (panic, s) = (record side { broken = true }, s)

  -- A turn of `await_one`.
  abbrev pub after_batch : Side → Option Message → S → Side × S
  after_batch side none s = (side, s)
  after_batch side (some m) s = after_ack side m.sequence (ack m.sequence s)

  abbrev pub after_poll : Side → Result (List Message) × S → Side × S
  after_poll side (ok batch, s) = after_batch side (last batch) s
  after_poll side (err e, s) = (record side { broken = true }, s)
  after_poll side (panic, s) = (record side { broken = true }, s)

  -- A rank whose loop is over takes no turn.
  unfoldable pub turn : Side → S → Side × S
  turn side s =
      if side.left == 0
      then (side, s)
      else if side.broken
      then (side, s)
      else if side.awaiting
      then after_poll side (poll s)
      else after_attempt side (send s)

  -- A turn by the state of the rank.
  module _ (side : Side) (s : S) (left : ℕ) (more : side.left ≡ left + 1)
      (whole : side.broken ≡ false) where
    going_on :
        turn side s
        ≡ (if side.awaiting then after_poll side (poll s) else after_attempt side (send s))
    unfolding turn
    going_on =
        let on : (side.left == 0) ≡ false = ground (arith, more) in
        let body =
          if side.awaiting then after_poll side (poll s) else after_attempt side (send s) in
        ap (λ t. if t then (side, s) else if side.broken then (side, s) else body) on
        ∙ ap (λ t. if t then (side, s) else body) whole

    pub turn_sends :
        (n : ℕ) (t : S)
        → side.awaiting ≡ false
        → send s ≡ (ok n, t)
        → turn side s ≡ (sent_one first side, t)
    turn_sends n t w e =
        going_on
        ∙ ap (λ b. if b then after_poll side (poll s) else after_attempt side (send s)) w
        ∙ ap (after_attempt side) e

    pub turn_idles : (t : S) → side.awaiting ≡ true → poll s ≡ (ok [], t) → turn side s ≡ (side, t)
    turn_idles t w e =
        going_on
        ∙ ap (λ b. if b then after_poll side (poll s) else after_attempt side (send s)) w
        ∙ ap (after_poll side) e

    pub turn_takes :
        (x : Message) (t u : S)
        → side.awaiting ≡ true
        → poll s ≡ (ok (x ∷ []), t)
        → ack x.sequence t ≡ (ok tt, u)
        → turn side s ≡ (got_one first x.sequence side, u)
    turn_takes x t u w e f =
        going_on
        ∙ ap (λ b. if b then after_poll side (poll s) else after_attempt side (send s)) w
        ∙ ap (after_poll side) e
        ∙ ap (after_ack side x.sequence) f

  pub turn_over : (side : Side) (s : S) → side.left ≡ 0 → turn side s ≡ (side, s)
  unfolding turn
  turn_over side s none_left =
      let over : (side.left == 0) ≡ true = ground (arith, none_left) in
      let body = if side.awaiting then after_poll side (poll s) else after_attempt side (send s) in
      ap (λ t. if t then (side, s) else if side.broken then (side, s) else body) over
