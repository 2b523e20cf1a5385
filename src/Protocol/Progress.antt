-- ===== src/Protocol/Progress.antt =====
-- A send that is retried on a safe lane, as `push` of examples/soak.rs does, while the receiver
-- takes turns.
use mpi_rma.Base.{
  ℕ, zero, suc, ◌+◌, ◌≤◌, ◌<◌, ◌≡◌, refl, ◌∙◌, ap, arith, Option, none, some, List, [], ◌∷◌, ◌++◌,
  map, length, get_elem?, word_mod,
}
use mathlib.Core.Option.{some-injective}
use native.Mathlib.Decide.{dec_lt}
use mpi_rma.Error.{Result, ok, err, full}
use mpi_rma.Mpi.{Mpi, Laws, Reliable}
use mpi_rma.Crc.{Crc}
use mpi_rma.Protocol.{
  Link, IsLink, Flow, Reach, call_send, sent_to, after_send, after_poll, after_ack,
}
use mpi_rma.Protocol.Invariant.{Inv}
use mpi_rma.Protocol.SendStep.{send-Inv, send_outcome}
use mpi_rma.Protocol.PollStep.{poll-Inv, poll_inbox}
use mpi_rma.Protocol.AckStep.{ack-Inv, ack_all}
use mpi_rma.Protocol.Delivery.{start, start-Inv, IsZeroed, Reach-Inv}
use mpi_rma.Soak.Push.{push, push_went, push_again, get_or_insert}

-- What the receiver does while the sender yields. To serve is one round of the poller: it polls and
-- acknowledges all that it was given.
pub data Turn : Type 0 where
  idle : Turn
  polls : Turn
  acks : ℕ → Turn
  serves : Turn

module _ (m : Mpi) (c : Crc) (k : Link) where
  abbrev pub turn : Turn → Flow m → Flow m
  turn idle f = f
  turn polls f = after_poll m c k f
  turn (acks n) f = after_ack m c k n f
  turn serves f = let g = after_poll m c k f in after_ack m c k g.seen g

  -- A send as `push` calls it.
  abbrev pub send_on : List ℕ → Flow m → Result ℕ × Flow m
  send_on bytes f = ((call_send m c k bytes f).0, after_send m c k bytes f)

module _ (m : Mpi) (laws : Laws m) (reliable : Reliable m) (c : Crc) {k : Link} (link : IsLink k)
    (now : Flow m → ℕ) (bytes : List ℕ) (fits : length bytes ≤ k.lane.capacity) where
  -- The loop ends with `Ok`, and the payload was sent once.
  abbrev Returns : List Turn → Option ℕ → Flow m → Type 0
  Returns turns refused f =
      (waited : Option ℕ) × (g : Flow m) × (push (send_on m c k bytes) now (map (turn m c k) turns)
          refused f
        ≡ some (ok waited, g))
      × (g.history ≡ f.history ++ bytes ∷ [])

  turn-Inv : (t : Turn) {f : Flow m} → Inv m c k f → Inv m c k (turn m c k t f)
  turn-Inv idle inv = inv
  turn-Inv polls inv = poll-Inv m c link inv
  turn-Inv (acks n) inv = ack-Inv m laws reliable c link inv n
  turn-Inv serves inv = let inv' = poll-Inv m c link inv in ack-Inv m laws reliable c link inv' _

  turn-history : (t : Turn) (f : Flow m) → (turn m c k t f).history ≡ f.history
  turn-history idle f = refl
  turn-history polls f = refl
  turn-history (acks n) f = refl
  turn-history serves f = refl

  -- A payload enters the history with an `Ok`, and only then.
  sent-history :
      (f : Flow m) (n : ℕ)
      → (call_send m c k bytes f).0 ≡ ok n
      → (after_send m c k bytes f).history ≡ f.history ++ bytes ∷ []
  sent-history f n e =
      let whole : call_send m c k bytes f ≡ (ok n, (call_send m c k bytes f).1) =
        ap (λ r. (r, (call_send m c k bytes f).1)) e in
      ap (λ r. (sent_to m c k f bytes r).history) whole

  full-history :
      (f : Flow m)
      → (call_send m c k bytes f).0 ≡ err full
      → (after_send m c k bytes f).history ≡ f.history
  full-history f e =
      let whole : call_send m c k bytes f ≡ (err full, (call_send m c k bytes f).1) =
        ap (λ r. (r, (call_send m c k bytes f).1)) e in
      ap (λ r. (sent_to m c k f bytes r).history) whole

  accepted :
      (turns : List Turn) (refused : Option ℕ) {f : Flow m}
      → Inv m c k f
      → length f.history + 2 < word_mod
      → length f.history < f.acked + k.lane.depth
      → Returns turns refused f
  accepted turns refused {f} inv room free =
      let goes = (send_outcome m laws reliable c link inv bytes fits room).0.1 free in
      (
        _,
        _,
        push_went (send_on m c k bytes) now (map (turn m c k) turns) refused f _ goes,
        sent-history f _ goes,
      )

  -- A round of the receiver frees the lane.
  served :
      {f : Flow m}
      → Inv m c k f
      → let g = turn m c k serves f in length g.history < g.acked + k.lane.depth
  served {f} inv =
      let inv' = poll-Inv m c link inv in
      let all = ack_all m laws reliable c link inv' (after_poll m c k f).seen refl in
      omega (arith, all, (poll_inbox m c link inv).1, link.placed.is_lane.deep)

  -- One attempt: it goes through, or the loop goes on with what the receiver's turn leaves.
  attempted :
      (t : Turn) (ts : List Turn) (refused : Option ℕ) {f : Flow m}
      → Inv m c k f
      → length f.history + 2 < word_mod
      → ((g : Flow m) (since : Option ℕ)
          → Inv m c k g
          → length (turn m c k t g).history + 2 < word_mod
          → Returns ts since (turn m c k t g))
      → Returns (t ∷ ts) refused f
  attempted t ts refused {f} inv room later =
      elim (dec_lt (length f.history) (f.acked + k.lane.depth)) [
        | yes free ↦ accepted (t ∷ ts) refused inv room free
        | no shut ↦
            let stays =
              (send_outcome m laws reliable c link inv bytes fits room).1.1 (omega arith) in
            let g = after_send m c k bytes f in
            let same = turn-history t g ∙ full-history f stays in
            let since = get_or_insert (send_on m c k bytes) now refused g in
            let (w, h, e, grown) =
              later g since (send-Inv m laws reliable c link inv bytes fits room) (rw same room) in
            let loop =
              push_again (send_on m c k bytes) now (turn m c k t) (map (turn m c k) ts) refused f
                stays in
            (w, h, loop ∙ e, grown ∙ ap (λ xs. xs ++ bytes ∷ []) same)
      ]

  retried :
      (turns : List Turn) (n : ℕ) (refused : Option ℕ) {f : Flow m}
      → get_elem? turns n ≡ some serves
      → Inv m c k f
      → length f.history + 2 < word_mod
      → Returns turns refused f
  retried [] n refused e inv room = cc
  retried (t ∷ ts) zero refused e inv room = attempted t ts refused inv room (λ g since inv' room'.
      let same : t ≡ serves = some-injective t serves e in
      accepted ts since (turn-Inv t inv') room' (rw same (served inv')))
  retried (t ∷ ts) (suc n) refused e inv room =
      attempted t ts refused inv room
        (λ g since inv' room'. retried ts n since e (turn-Inv t inv') room')

module _ (m : Mpi) (laws : Laws m) (reliable : Reliable m) (c : Crc) {k : Link} (link : IsLink k)
    {w : m.World} (z : IsZeroed m k w) {f : Flow m} (run : Reach m c k (start m w) f) where
  -- From zeroed windows, with a library that keeps its laws and does not fail, and after any calls
  -- on a safe lane: a `push` of a payload that fits, while sequence numbers are left, ends if at
  -- some point while it yields the receiver polls and acknowledges what it got. It ends with `Ok`,
  -- and the payload has then been sent once.
  pub push_returns :
      (now : Flow m → ℕ) (bytes : List ℕ)
      → length bytes ≤ k.lane.capacity
      → length f.history + 2 < word_mod
      → (turns : List Turn) (n : ℕ) → get_elem? turns n ≡ some serves
      → (waited : Option ℕ) × (g : Flow m) × (push
            (send_on m c k bytes)
            now
            (map (turn m c k) turns)
            none
            f
          ≡ some (ok waited, g))
        × (g.history ≡ f.history ++ bytes ∷ [])
  push_returns now bytes fits room turns n e =
      retried m laws reliable c link now bytes fits turns n none e
        (Reach-Inv m laws reliable c link (start-Inv m c link z) run) room
