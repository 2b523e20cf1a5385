-- ===== src/Compare/Rtt/Flows.antt =====
-- The calls of `ring_rtt` on one lane that holds at most one message.
use mpi_rma.Base.{
  ℕ, ◌+◌, ◌≤◌, ◌<◌, ◌≡◌, sym, ◌∙◌, ap, arith, List, [], ◌∷◌, length, drop, pos, word_mod,
  length-append, length-drop, drop-length_append, length-zero, length-one,
}
use mpi_rma.Error.{Result, ok, err, panic}
use mpi_rma.Mpi.{Mpi, Laws, Reliable}
use mpi_rma.Crc.{Crc}
use mpi_rma.Ring.Types.{Message}
use mpi_rma.Ring.Send.{Sending}
use mpi_rma.Ring.Poll.Drain.{tagged}
use mpi_rma.Protocol.{
  Link, IsLink, Flow, sent_to, call_send, after_send, call_poll, after_poll, call_ack, after_ack,
}
use mpi_rma.Protocol.Invariant.{Inv}
use mpi_rma.Protocol.SendStep.{send_outcome}
use mpi_rma.Protocol.PollStep.{poll_outcome, poll_inbox}
use mpi_rma.Protocol.AckStep.{ack_outcome, ack_all}

-- How many messages were sent, received and acknowledged.
pub record Counts (m : Mpi) (f : Flow m) (sent seen acked : ℕ) : Type 0 where
  pub sent_count : length f.history ≡ sent
  pub seen_count : f.seen ≡ seen
  pub acked_count : f.acked ≡ acked

-- What a call of `ring.poll()` returns on a rank with this one incoming lane.
abbrev pub batch_of :
    (m : Mpi) (c : Crc) (k : Link) → Flow m → Result (Unit {0}) → Result (List Message)
batch_of m c k f (ok _) = ok (drop (length f.inbox) (after_poll m c k f).inbox)
batch_of m c k f (err e) = err e
batch_of m c k f panic = panic

sent_one_Counts :
    (m : Mpi) (c : Crc) (k : Link) (f : Flow m) (bytes : List ℕ) (n q : ℕ)
    (r : Result ℕ × Sending m)
    → r.0 ≡ ok q
    → Counts m f n n n
    → Counts m (sent_to m c k f bytes r) (n + 1) n n
sent_one_Counts m c k f bytes n q (ok p, s) e h = record {
  sent_count = omega (arith, length-append f.history (bytes ∷ []), h.sent_count);
  seen_count = h.seen_count;
  acked_count = h.acked_count;
}
sent_one_Counts m c k f bytes n q (err x, s) e h = cc
sent_one_Counts m c k f bytes n q (panic, s) e h = cc

module _ (m : Mpi) (laws : Laws m) (reliable : Reliable m) (c : Crc) {k : Link} (link : IsLink k)
    {f : Flow m} (inv : Inv m c k f) (n : ℕ) where
  -- On an idle lane a send goes through at once.
  pub idle_sends :
      (bytes : List ℕ)
      → length bytes ≤ k.lane.capacity
      → n + 2 < word_mod
      → Counts m f n n n
      → ((call_send m c k bytes f).0 ≡ ok (n + 1)) × Counts m (after_send m c k bytes f) (n + 1) n n
  idle_sends bytes fits room h =
      let outcome =
        send_outcome m laws reliable c link inv bytes fits (omega (arith, h.sent_count, room)) in
      let sent =
        outcome.0.1 (omega (arith, h.sent_count, h.acked_count, link.placed.is_lane.deep)) in
      (
        sent ∙ ap (λ x. ok (x + 1)) h.sent_count,
        sent_one_Counts m c k f bytes n (length f.history + 1) (call_send m c k bytes f) sent h,
      )

  abbrev unseen : List (List ℕ)
  unseen = drop f.seen f.history

  polled_batch : batch_of m c k f (call_poll m c k f).0 ≡ ok (tagged (pos k.source) f.seen unseen)
  polled_batch =
      let done = poll_outcome m c link inv in
      ap (batch_of m c k f) (ap (λ r. r.0) done)
      ∙ ap (λ r. ok (drop (length f.inbox) r.1.messages)) done
      ∙ ap ok (drop-length_append f.inbox (tagged (pos k.source) f.seen unseen))

  -- A poll of an idle lane finds nothing and changes nothing.
  pub idle_polls :
      Counts m f n n n
      → (batch_of m c k f (call_poll m c k f).0 ≡ ok []) × Counts m (after_poll m c k f) n n n
  unfolding tagged
  idle_polls h =
      let none_new : unseen ≡ [] =
        length-zero unseen
          (omega (arith, length-drop f.seen f.history, h.sent_count, h.seen_count)) in
      (
        polled_batch ∙ ap (λ xs. ok (tagged (pos k.source) f.seen xs)) none_new,
        record {
          sent_count = h.sent_count;
          seen_count = (poll_inbox m c link inv).1 ∙ h.sent_count;
          acked_count = h.acked_count;
        },
      )

  -- A poll of a lane with one message takes it.
  pub full_polls :
      Counts m f (n + 1) n n
      → (x : Message) × (batch_of m c k f (call_poll m c k f).0 ≡ ok (x ∷ []))
        × (x.sequence ≡ n + 1)
        × Counts m (after_poll m c k f) (n + 1) (n + 1) n
  unfolding tagged
  full_polls h =
      let (bytes, one) =
        length-one unseen
          (omega (arith, length-drop f.seen f.history, h.sent_count, h.seen_count)) in
      (
        record { origin = pos k.source; sequence = f.seen + 1; bytes = bytes },
        polled_batch ∙ ap (λ xs. ok (tagged (pos k.source) f.seen xs)) one,
        ap (λ x. x + 1) h.seen_count,
        record {
          sent_count = h.sent_count;
          seen_count = (poll_inbox m c link inv).1 ∙ h.sent_count;
          acked_count = h.acked_count;
        },
      )

  -- Its acknowledgement is accepted, and the lane is idle again.
  pub full_acks :
      Counts m f (n + 1) (n + 1) n
      → ((call_ack m c k (n + 1) f).0 ≡ ok tt)
        × Counts m (after_ack m c k (n + 1) f) (n + 1) (n + 1) (n + 1)
  full_acks h = (
    (ack_outcome m laws reliable c link inv (n + 1)).0.1 (omega (arith, h.seen_count)),
    record {
      sent_count = h.sent_count;
      seen_count = h.seen_count;
      acked_count = ack_all m laws reliable c link inv (n + 1) (sym h.seen_count) ∙ h.seen_count;
    },
  )
