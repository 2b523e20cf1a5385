-- ===== src/Compare/Delivered.antt =====
-- `ring_stream` on a safe lane: the receiver's loop ends, and its count is what the sender sent.
use mpi_rma.Base.{
  ℕ, ◌+◌, ◌≤◌, ◌<◌, ◌≡◌, refl, sym, ◌∙◌, ap, ap₂, arith, Bool, true, false, some, List, [], ◌∷◌,
  ◌++◌, pos, length, take_all, word_mod, length-append, Bool-cases, inl, inr, map,
}
use mpi_rma.Error.{ok}
use mpi_rma.Mpi.{Mpi, Laws, Reliable}
use mpi_rma.Crc.{Crc}
use mpi_rma.Ring.Poll.Drain.{tagged}
use mpi_rma.Protocol.{Link, IsLink}
use mpi_rma.Protocol.Invariant.{Inv}
use mpi_rma.Protocol.Delivery.{start, start-Inv, IsZeroed}
use mpi_rma.Compare.Stream.{
  after_ack, drain_loop_ends, drain_loop_on, after_ack_told, after_ack_untold,
}
use mpi_rma.Compare.Duo.{
  Work, others_of, Duo, acts, poll_on, ack_on, receive_on, after_on, receiver,
}
use mpi_rma.Compare.Turns.{Polled, polled}
use mpi_rma.Compare.Acts.{
  FitTurns, FitWork, count_work, count_acts, Stops, Sound, Advances, acts_stopped, acts_stop,
  acts-Advances,
}

module _ (m : Mpi) (laws : Laws m) (reliable : Reliable m) (c : Crc) {k : Link}
    (link : IsLink k) where
  -- The loop ends with the number of messages that were sent.
  record Ends (turns : List Work) (got : ℕ) (stopping : Bool) (d : Duo m) : Type 0 where
    last : Duo m
    ended : receiver m c k turns got stopping d ≡ some (ok (length last.flow.history), last)
    inv : Inv m c k last.flow
    stopped : last.stopped ≡ true
    seen : last.flow.seen ≡ length last.flow.history

  abbrev SoundDuo : Bool → Duo m → Type 0
  SoundDuo = Sound m laws reliable c link

  -- One turn of the receiver.
  module _ (d : Duo m) (stopping : Bool) (s : SoundDuo stopping d) (t : Work) (fits : FitWork k t)
      (room : length d.flow.history + count_work t + 1 < word_mod) where
    abbrev turned : Polled m laws reliable c link d t.polled t.acked d.flow.seen stopping
    turned = polled m laws reliable c link d stopping s t.polled t.acked fits.0 fits.1 (omega arith)

    abbrev sent : ℕ
    sent = length d.flow.history

    abbrev after : Duo m
    after = acts m c k t.probed turned.next

    moved : Advances m laws reliable c link stopping turned.next after (length t.probed)
    moved =
        acts-Advances m laws reliable c link stopping t.probed turned.next fits.2
          (omega (arith, turned.grown)) turned.sound

    grown : length after.flow.history ≤ sent + count_work t
    grown = omega (arith, turned.grown, moved.grown)

    -- A receiver that knows, and polled nothing.
    empty-Ends :
        (ts : List Work)
        → stopping ≡ true
        → d.stopped ≡ true
        → turned.empty ≡ true
        → Ends (t ∷ ts) d.flow.seen stopping d
    unfolding after_ack
    empty-Ends ts knows over empty =
        let (same, halted) = turned.kept over in
        let size = ap length same in
        record {
          last = turned.next;
          ended =
              drain_loop_ends (poll_on m c k) (ack_on m c k) (λ e. e.waiting) (receive_on m c k)
                (others_of m c k t) (map (others_of m c k) ts) d.flow.seen sent stopping d
                turned.next
                (turned.turned ∙ ap₂ (λ a b. after_on m c k sent a b turned.next) knows empty)
              ∙ ap (λ n. some (ok n, turned.next)) (sym size);
          inv = turned.sound.inv;
          stopped = halted;
          seen = turned.seen ∙ sym size;
        }

    -- A receiver that knows, and polled something.
    full_goes_on :
        (ts : List Work)
        → stopping ≡ true
        → d.stopped ≡ true
        → turned.empty ≡ false
        → receiver m c k (t ∷ ts) d.flow.seen stopping d
          ≡ receiver m c k ts turned.next.flow.seen true turned.next
    unfolding after_ack
    full_goes_on ts knows over full =
        drain_loop_on (poll_on m c k) (ack_on m c k) (λ e. e.waiting) (receive_on m c k)
          (others_of m c k t) (map (others_of m c k) ts) d.flow.seen sent stopping true d
          turned.next (turned.turned ∙ ap₂ (λ a b. after_on m c k sent a b turned.next) knows full)
        ∙ ap₂ (λ n e. receiver m c k ts n true e) (sym turned.seen)
            (acts_stopped m laws reliable c link t.probed turned.next (turned.kept over).1)

    -- A receiver that does not know and finds the sender's last message.
    told :
        (ts : List Work)
        → stopping ≡ false
        → turned.next.waiting ≡ true
        → turned.next.stopped ≡ true
        → receiver m c k (t ∷ ts) d.flow.seen stopping d
          ≡ receiver m c k ts turned.next.flow.seen true (receive_on m c k turned.next)
    told ts unaware waits over =
        let next : Duo m = receive_on m c k turned.next in
        drain_loop_on (poll_on m c k) (ack_on m c k) (λ e. e.waiting) (receive_on m c k)
          (others_of m c k t) (map (others_of m c k) ts) d.flow.seen sent stopping true d next
          (turned.turned
            ∙ ap (λ a. after_on m c k sent a turned.empty turned.next) unaware
            ∙ after_ack_told (poll_on m c k) (ack_on m c k) (λ e. e.waiting) (receive_on m c k) sent
                turned.empty turned.next waits)
        ∙ ap₂ (λ n e. receiver m c k ts n true e) (sym turned.seen)
            (acts_stopped m laws reliable c link t.probed next over)

    -- It does not find it.
    untold :
        (ts : List Work)
        → stopping ≡ false
        → turned.next.waiting ≡ false
        → receiver m c k (t ∷ ts) d.flow.seen stopping d
          ≡ receiver m c k ts after.flow.seen false after
    untold ts unaware waits =
        drain_loop_on (poll_on m c k) (ack_on m c k) (λ e. e.waiting) (receive_on m c k)
          (others_of m c k t) (map (others_of m c k) ts) d.flow.seen sent stopping false d
          turned.next
          (turned.turned
            ∙ ap (λ a. after_on m c k sent a turned.empty turned.next) unaware
            ∙ after_ack_untold (poll_on m c k) (ack_on m c k) (λ e. e.waiting) (receive_on m c k)
                sent turned.empty turned.next waits)
        ∙ ap (λ n. receiver m c k ts n false after) (sym (moved.seen ∙ turned.seen))

  -- Two runs that are one have one end.
  follows :
      {turns turns' : List Work} {got got' : ℕ} {b b' : Bool} {d d' : Duo m}
      → receiver m c k turns got b d ≡ receiver m c k turns' got' b' d'
      → Ends turns' got' b' d'
      → Ends turns got b d
  follows same e = record {
    last = e.last;
    ended = same ∙ e.ended;
    inv = e.inv;
    stopped = e.stopped;
    seen = e.seen;
  }

  -- A turn that polls nothing is the last; one that polls something is followed by one that does
  -- not.
  known-Ends :
      (turns : List Work) (d : Duo m)
      → SoundDuo true d
      → FitTurns k turns
      → length d.flow.history + count_acts turns + 1 < word_mod
      → 2 ≤ length turns
      → Ends turns d.flow.seen true d
  known-Ends [] d s fits room long = absurd (omega arith)
  known-Ends (t ∷ []) d s fits room long = absurd (omega arith)
  known-Ends (t ∷ u ∷ ts) d s fits room long =
      let small : length d.flow.history + count_work t + 1 < word_mod = omega arith in
      let first = turned d true s t fits.0 small in
      elim (Bool-cases first.empty) [
        | inl empty ↦ empty-Ends d true s t fits.0 small (u ∷ ts) refl s.known empty
        | inr full ↦
            let (same, over) = first.kept s.known in
            let size = ap length same in
            let small' : length first.next.flow.history + count_work u + 1 < word_mod =
              omega (arith, size) in
            let second = turned first.next true first.sound u fits.1.0 small' in
            follows (full_goes_on d true s t fits.0 small (u ∷ ts) refl s.known full) (
              empty-Ends first.next true first.sound u fits.1.0 small' ts refl over
                (second.was_empty (first.seen ∙ sym size)))
      ]

  -- A turn after which the sender is known to have stopped.
  told-Ends :
      (t : Work) (ts : List Work) (d : Duo m) (s : SoundDuo false d)
      → (fits : FitTurns k (t ∷ ts))
      → (room : length d.flow.history + count_acts (t ∷ ts) + 1 < word_mod) → 2 ≤ length ts
      → (turned d false s t fits.0 (omega arith)).next.waiting ≡ true
      → Ends (t ∷ ts) d.flow.seen false d
  told-Ends t ts d s fits room long waits =
      let now = turned d false s t fits.0 (omega arith) in
      let over = now.sound.known ∙ waits in
      follows (told d false s t fits.0 (omega arith) ts refl waits over) (
        known-Ends ts (receive_on m c k now.next) (record { inv = now.sound.inv; known = over })
          fits.1 (omega (arith, now.grown)) long)

  -- A receiver that does not know, when the sender has stopped.
  over-Ends :
      (turns : List Work) (d : Duo m)
      → SoundDuo false d
      → d.stopped ≡ true
      → FitTurns k turns
      → length d.flow.history + count_acts turns + 1 < word_mod
      → 3 ≤ length turns
      → Ends turns d.flow.seen false d
  over-Ends [] d s over fits room long = absurd (omega arith)
  over-Ends (t ∷ ts) d s over fits room long =
      let now = turned d false s t fits.0 (omega arith) in
      told-Ends t ts d s fits room (omega arith) (sym now.sound.known ∙ (now.kept over).1)

  -- The turn in which it stops.
  stop-Ends :
      (t : Work) (ts : List Work) (d : Duo m)
      → SoundDuo false d
      → Stops t
      → FitTurns k (t ∷ ts)
      → length d.flow.history + count_acts (t ∷ ts) + 1 < word_mod
      → 3 ≤ length ts
      → Ends (t ∷ ts) d.flow.seen false d
  stop-Ends t ts d s stops_in fits room long =
      let now = turned d false s t fits.0 (omega arith) in
      elim (Bool-cases now.next.waiting) [
        | inl waits ↦ told-Ends t ts d s fits room (omega arith) waits
        | inr waits ↦
            let next = after d false s t fits.0 (omega arith) in
            let on = now.sound.known ∙ waits in
            let late : next.stopped ≡ true = elim stops_in [
              | inl e ↦ absurd (true-false (sym (now.stops_first e) ∙ on))
              | inr (inl e) ↦ absurd (true-false (sym (now.stops_second e) ∙ on))
              | inr (inr e) ↦ acts_stop m laws reliable c link t.probed now.next e
            ] in
            follows (untold d false s t fits.0 (omega arith) ts refl waits) (
              over-Ends ts next (moved d false s t fits.0 (omega arith)).sound late fits.1
                (omega (arith, grown d false s t fits.0 (omega arith))) long)
      ]
    where
      true-false : ◌≡◌ {A = Bool} true false → ⊥
      true-false e = cc

  loop-Ends :
      (before : List Work) (t : Work) (ts : List Work) (d : Duo m)
      → SoundDuo false d
      → Stops t
      → FitTurns k (before ++ t ∷ ts)
      → length d.flow.history + count_acts (before ++ t ∷ ts) + 1 < word_mod
      → 3 ≤ length ts
      → Ends (before ++ t ∷ ts) d.flow.seen false d
  loop-Ends [] t ts d s stops_in fits room long = stop-Ends t ts d s stops_in fits room long
  loop-Ends (u ∷ us) t ts d s stops_in fits room long =
      let now = turned d false s u fits.0 (omega arith) in
      let rest = us ++ t ∷ ts in
      elim (Bool-cases now.next.waiting) [
        | inl waits ↦
            told-Ends u rest d s fits room (omega (arith, length-append us (t ∷ ts))) waits
        | inr waits ↦ follows (untold d false s u fits.0 (omega arith) rest refl waits) (
            loop-Ends us t ts (after d false s u fits.0 (omega arith))
              (moved d false s u fits.0 (omega arith)).sound stops_in fits.1
              (omega (arith, grown d false s u fits.0 (omega arith))) long)
      ]

  -- From zeroed windows, with a library that keeps its laws and does not fail: whatever the sender
  -- does between the receiver's calls of `poll`, `ack` and the probe (attempts to send payloads
  -- that fit, fewer than there are sequence numbers) and wherever it reports that it has stopped,
  -- after which it does nothing, the receiver's loop ends at most three turns after the turn of
  -- that report. It has then been given every message that was sent, once and in order, and its
  -- count is their number.
  pub stream_delivers :
      {w : m.World}
      → IsZeroed m k w
      → (before : List Work) (t : Work) (later : List Work) → Stops t
      → FitTurns k (before ++ t ∷ later)
      → count_acts (before ++ t ∷ later) + 1 < word_mod
      → 3 ≤ length later
      → (last : Duo m) × (receiver m c k
            (before ++ t ∷ later)
            0
            false
            (record { flow = start m w; stopped = false; waiting = false })
          ≡ some (ok (length last.flow.history), last))
        × (last.stopped ≡ true)
        × (last.flow.inbox ≡ tagged (pos k.source) 0 last.flow.history)
  stream_delivers {w} z before t later stops_in fits room long =
      let d : Duo m = record { flow = start m w; stopped = false; waiting = false } in
      let s : SoundDuo false d = record { inv = start-Inv m c link z; known = refl } in
      let e = loop-Ends before t later d s stops_in fits (omega arith) long in
      (
        e.last,
        e.ended,
        e.stopped,
        e.inv.delivered
            ∙ ap (tagged (pos k.source) 0)
                (take_all e.last.flow.seen e.last.flow.history (omega (arith, e.seen))),
      )
