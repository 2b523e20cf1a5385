-- ===== src/Protocol/Refinement.antt =====
-- A safe lane answers every list of calls as the bounded queue does.
use mpi_rma.Base.{
  ℕ, ◌+◌, ◌≤◌, ◌<◌, ◌≡◌, refl, ◌∙◌, ap, ap₂, arith, List, [], ◌∷◌, ◌++◌, pos, length, drop, lt→ltb,
  le→ltb, lt→leb, le→leb, length-drop, length-append, drop-append_le, drop_all, word_mod,
}
use native.Mathlib.Decide.{dec_lt}
use mpi_rma.Error.{Result, ok, err, panic, full}
use mpi_rma.Mpi.{Mpi, Laws, Reliable}
use mpi_rma.Crc.{Crc}
use mpi_rma.Ring.Poll.Drain.{tagged}
use mpi_rma.Ring.Send.{Sending}
use mpi_rma.Protocol.{
  Link, IsLink, Flow, call_send, call_poll, call_ack, sent_to, after_send, after_poll, after_ack,
}
use mpi_rma.Protocol.Invariant.{Inv}
use mpi_rma.Protocol.SendStep.{send-Inv, send_outcome}
use mpi_rma.Protocol.PollStep.{poll-Inv, poll_outcome}
use mpi_rma.Protocol.AckStep.{ack-Inv, ack_outcome, ack_moves}
use mpi_rma.Protocol.Delivery.{start, start-Inv, IsZeroed}
use mpi_rma.Protocol.Fifo.{
  Call, send, poll, ack, Answer, sent, polled, acked, Fifo, empty, step, answers_to,
}

-- The queue that a lane stands for.
abbrev pub view : (m : Mpi) → Flow m → Fifo
view m f = record {
  queue = drop f.seen f.history;
  taken = f.seen;
  freed = f.acked;
  given = f.inbox;
}

-- The payloads fit the lane.
abbrev pub Fits : Link → List Call → Type 0
Fits k [] = Unit {0}
Fits k (send bytes ∷ calls) = (length bytes ≤ k.lane.capacity) × Fits k calls
Fits k (poll ∷ calls) = Fits k calls
Fits k (ack n ∷ calls) = Fits k calls

Fits-first :
    (k : Link) (call : Call) (calls : List Call) → Fits k (call ∷ calls) → Fits k (call ∷ [])
Fits-first k (send bytes) calls h = (h.0, tt)
Fits-first k poll calls h = tt
Fits-first k (ack n) calls h = tt

Fits-rest : (k : Link) (call : Call) (calls : List Call) → Fits k (call ∷ calls) → Fits k calls
Fits-rest k (send bytes) calls h = h.1
Fits-rest k poll calls h = h
Fits-rest k (ack n) calls h = h

module _ (m : Mpi) (c : Crc) (k : Link) where
  -- One call of the code on the lane.
  abbrev pub serve : Call → Flow m → Answer × Flow m
  serve (send bytes) f = (sent (call_send m c k bytes f).0, after_send m c k bytes f)
  serve poll f = let f' = after_poll m c k f in (polled (call_poll m c k f).0 f'.inbox, f')
  serve (ack n) f = (acked (call_ack m c k n f).0, after_ack m c k n f)

  unfoldable pub serve_all : List Call → Flow m → List Answer
  serve_all [] f = []
  serve_all (call ∷ calls) f = (serve call f).0 ∷ serve_all calls (serve call f).1

sent_grows :
    (m : Mpi) (c : Crc) (k : Link) (f : Flow m) (bytes : List ℕ) (r : Result ℕ × Sending m)
    → length (sent_to m c k f bytes r).history ≤ length f.history + 1
sent_grows m c k f bytes (ok n, s) = omega (arith, length-append f.history (bytes ∷ []))
sent_grows m c k f bytes (err e, s) = omega arith
sent_grows m c k f bytes (panic, s) = omega arith

module _ (m : Mpi) (laws : Laws m) (reliable : Reliable m) (c : Crc) {k : Link}
    (link : IsLink k) where
  abbrev Refines : Call → Flow m → Type 0
  Refines call f =
      let r = serve m c k call f in
      let s = step k.lane.depth (pos k.source) call (view m f) in (r.0 ≡ s.0) × (view m r.1 ≡ s.1)

  module _ {f : Flow m} (inv : Inv m c k f) where
    open inv use {seen_sent}

    queued : f.seen + length (drop f.seen f.history) ≡ length f.history
    queued = omega (arith, length-drop f.seen f.history)

    send-Refines :
        (bytes : List ℕ)
        → length bytes ≤ k.lane.capacity
        → length f.history + 2 < word_mod
        → Refines (send bytes) f
    unfolding step
    send-Refines bytes fits room =
        let (goes, stays) = send_outcome m laws reliable c link inv bytes fits room in
        let r = call_send m c k bytes f in
        elim (dec_lt (length f.history) (f.acked + k.lane.depth)) [
          | yes free ↦
              let whole : r ≡ (ok (length f.history + 1), r.1) = ap (λ o. (o, r.1)) (goes.1 free) in
              rw (queued, lt→ltb (length f.history) (f.acked + k.lane.depth) free, whole)
                (
                  refl,
                  ap (λ q. record (view m f) { queue = q })
                      (drop-append_le f.seen f.history (bytes ∷ []) seen_sent),
                )
          | no shut ↦
              let whole : r ≡ (err full, r.1) = ap (λ o. (o, r.1)) (stays.1 (omega arith)) in
              rw (queued, le→ltb (length f.history) (f.acked + k.lane.depth) (omega arith), whole)
                (refl, refl)
        ]

    poll-Refines : Refines poll f
    unfolding step
    poll-Refines =
        let done = poll_outcome m c link inv in
        let emptied : drop (f.seen + length (drop f.seen f.history)) f.history ≡ [] =
          drop_all (f.seen + length (drop f.seen f.history)) f.history (omega (arith, queued)) in
        (
          ap (λ r. polled r.0 r.1.messages) done,
          ap
                (λ r. record {
                  queue = drop r.1.seen f.history;
                  taken = r.1.seen;
                  freed = f.acked;
                  given = r.1.messages;
                })
                done
              ∙ ap
                  (λ q. record {
                    queue = q;
                    taken = f.seen + length (drop f.seen f.history);
                    freed = f.acked;
                    given = f.inbox ++ tagged (pos k.source) f.seen (drop f.seen f.history);
                  })
                  emptied,
        )

    ack-Refines : (n : ℕ) → Refines (ack n) f
    unfolding step
    ack-Refines n =
        let (accepts, refuses) = ack_outcome m laws reliable c link inv n in
        let moved = ack_moves m laws reliable c link inv n in
        let held : ℕ → Fifo = λ q. record (view m f) { freed = q } in
        elim (dec_lt f.seen n) [
          | yes beyond ↦
              let shut = lt→leb n f.seen beyond in
              rw shut (ap acked (refuses.1 beyond), ap held (rw shut at moved))
          | no known ↦
              let open_up = le→leb n f.seen (omega arith) in
              rw open_up (ap acked (accepts.1 (omega arith)), ap held (rw open_up at moved))
        ]

    call-Refines :
        (call : Call)
        → Fits k (call ∷ [])
        → length f.history + 2 < word_mod
        → Refines call f
          × Inv m c k (serve m c k call f).1
          × (length (serve m c k call f).1.history ≤ length f.history + 1)
    call-Refines (send bytes) fits room = (
      send-Refines bytes fits.0 room,
      send-Inv m laws reliable c link inv bytes fits.0 room,
      sent_grows m c k f bytes (call_send m c k bytes f),
    )
    call-Refines poll fits room = (poll-Refines, poll-Inv m c link inv, omega arith)
    call-Refines (ack n) fits room =
        (ack-Refines n, ack-Inv m laws reliable c link inv n, omega arith)

  run_refines :
      (calls : List Call) {f : Flow m}
      → Inv m c k f
      → Fits k calls
      → length f.history + length calls + 1 < word_mod
      → serve_all m c k calls f ≡ answers_to k.lane.depth (pos k.source) calls (view m f)
  unfolding serve_all answers_to
  run_refines [] inv fits room = refl
  run_refines (call ∷ calls) {f} inv fits room =
      let (refined, inv', grown) =
        call-Refines inv call (Fits-first k call calls fits) (omega arith) in
      let rest = run_refines calls inv' (Fits-rest k call calls fits) (omega arith) in
      ap₂ (λ x xs. x ∷ xs) refined.0
        (rest ∙ ap (answers_to k.lane.depth (pos k.source) calls) refined.1)

  -- With a library that keeps its laws and whose calls succeed, and from zeroed windows: whatever
  -- calls the two ends make (of payloads that fit, and fewer than there are sequence numbers), the
  -- code's answers are those of a bounded queue of the lane's depth that starts empty.
  pub lane_refines :
      {w : m.World}
      → IsZeroed m k w
      → (calls : List Call) → Fits k calls
      → length calls + 1 < word_mod
      → serve_all m c k calls (start m w) ≡ answers_to k.lane.depth (pos k.source) calls empty
  lane_refines z calls fits room = run_refines calls (start-Inv m c link z) fits (omega arith)
