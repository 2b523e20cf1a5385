-- ===== src/Soak/Safe.antt =====
-- The stress test on a safe lane: what the rounds of the sender push there, the poller is given.
use mpi_rma.Base.{
  ℕ, zero, suc, ◌+◌, ◌≤◌, ◌<◌, ◌^◌, ◌≡◌, refl, ◌∙◌, ap, arith, pos, length, replicate,
  length-replicate, All, word_mod,
}
use mpi_rma.Mpi.{Mpi, Laws, Reliable}
use mpi_rma.Crc.{Crc}
use mpi_rma.Ring.Poll.Drain.{tagged, length-tagged}
use mpi_rma.Protocol.{Link, IsLink, Flow, Reach, after_poll}
use mpi_rma.Protocol.Delivery.{start, start-Inv, IsZeroed, Reach-Inv}
use mpi_rma.Protocol.PollStep.{poll_inbox}
use mpi_rma.Soak.{done}
use mpi_rma.Soak.Payload.{stamp, verify, verify-paint}
use mpi_rma.Soak.Sender.Payloads.{payload_of, payloads, paint-payload}

length-payloads : (rank len left sequence : ℕ) → length (payloads rank len left sequence) ≡ left
unfolding payloads
length-payloads rank len zero sequence = refl
length-payloads rank len (suc left) sequence = ap suc (length-payloads rank len left (sequence + 1))

module _ (rank len : ℕ) (small : rank < 2 ^ 31) (stamped_len : stamp ≤ len) where
  verify-payload_of :
      (sequence : ℕ)
      → sequence < word_mod
      → verify
          (record { origin = pos rank; sequence = sequence; bytes = payload_of rank len sequence })
        ≡ done tt
  verify-payload_of sequence room =
      let buf = replicate len 0 in
      let sized : length buf ≡ len = length-replicate {A = ℕ} len 0 in
      verify-paint (pos rank) sequence small room buf (payload_of rank len sequence) (
        paint-payload rank sequence buf (omega (arith, sized))
        ∙ ap (λ n. done (payload_of rank n sequence)) sized)

  -- The ring numbers the messages as the rounds are numbered.
  verify-tagged :
      (left n : ℕ)
      → n + left < word_mod
      → All (λ m. verify m ≡ done tt) (tagged (pos rank) n (payloads rank len left (n + 1)))
  unfolding tagged payloads
  verify-tagged zero n room = tt
  verify-tagged (suc left) n room =
      (verify-payload_of (n + 1) (omega arith), verify-tagged left (n + 1) (omega arith))

-- From zeroed windows, with a library that keeps its laws and does not fail, and after any calls on
-- a safe lane: if what was sent on it is the payloads of the first `messages` rounds of its sender,
-- then after one more poll the receiver has been given that many messages, each of them passes
-- `verify`, and the lane ends at the sender's last sequence number.
pub safe_lane_passes :
    (m : Mpi) (laws : Laws m) (reliable : Reliable m) (c : Crc) {k : Link} (link : IsLink k)
    {w : m.World} (z : IsZeroed m k w) {f : Flow m} (run : Reach m c k (start m w) f)
    (len messages : ℕ)
    → k.source < 2 ^ 31
    → stamp ≤ len
    → messages < word_mod
    → f.history ≡ payloads k.source len messages 1
    → let g = after_poll m c k f in
      All (λ x. verify x ≡ done tt) g.inbox × (length g.inbox ≡ messages) × (g.seen ≡ messages)
safe_lane_passes m laws reliable c {k} link z {f} run len messages small long room pushed =
    let inv = Reach-Inv m laws reliable c link (start-Inv m c link z) run in
    let (given, seen) = poll_inbox m c link inv in
    let all = given ∙ ap (tagged (pos k.source) 0) pushed in
    let count = length-payloads k.source len messages 1 in
    (
      rw all (verify-tagged k.source len small long messages 0 (omega arith)),
      ap length all ∙ length-tagged (pos k.source) 0 (payloads k.source len messages 1) ∙ count,
      seen ∙ ap length pushed ∙ count,
    )
