-- ===== src/Compare/Turns.antt =====
-- `ring_stream` on a safe lane: one turn of the receiver's loop.
use mpi_rma.Base.{
  word_mod, ℕ, ◌+◌, ◌≤◌, ◌<◌, ◌≡◌, refl, ◌∙◌, ap, ap₂, arith, Bool, true, false, List, [], ◌∷◌, ℤ,
  pos, length, drop, max, ltb, add_word, length-drop, inl, inr, ◌⊎◌, lt→ltb,
}
use mpi_rma.Error.{ok}
use mpi_rma.Mpi.{Mpi, Laws, Reliable}
use mpi_rma.Crc.{Crc}
use mpi_rma.Ring.Types.{Message}
use mpi_rma.Ring.Poll.Drain.{length-tagged, tagged}
use mpi_rma.Protocol
use mpi_rma.Protocol.{
  Link, IsLink, Flow, receiving, call_poll, call_ack, sent_to, call_send, after_send, after_poll,
}
use mpi_rma.Protocol.Invariant.{Inv}
use mpi_rma.Protocol.PollStep.{poll-Inv, poll_outcome, poll_inbox}
use mpi_rma.Protocol.AckStep.{ack-Inv, ack_outcome}
use mpi_rma.Compare.Stream.{furthest, ack_furthest, no_messages, acked_turn, polled_turn}
use mpi_rma.Base.{drop-length_append}
use mpi_rma.Compare.Acts.{
  FitActs, any_stop, Sound, Advances, acts_stopped, acts_stop, acts-Advances,
}
use mpi_rma.Compare.Duo.{
  Act, Duo, acts, poll_on, ack_on, receive_on, poll_result, turn_on, after_on,
}

furthest-tagged :
    (origin : ℤ) (n a : ℕ) (xs : List (List ℕ))
    → a ≡ n
    → furthest (tagged origin n xs) a ≡ n + length xs
unfolding furthest tagged
furthest-tagged origin n a [] e = omega arith
furthest-tagged origin n a (x ∷ xs) e =
    omega (arith, furthest-tagged origin (n + 1) (max a (n + 1)) xs (omega arith))

furthest_all :
    (origin : ℤ) (n : ℕ) (xs : List (List ℕ))
    → 0 < length xs
    → furthest (tagged origin n xs) 0 ≡ n + length xs
unfolding furthest tagged
furthest_all origin n [] h = absurd (omega arith)
furthest_all origin n (x ∷ xs) h =
    omega (arith, furthest-tagged origin (n + 1) (max 0 (n + 1)) xs (omega arith))

no_messages-tagged :
    (origin : ℤ) (n : ℕ) (xs : List (List ℕ))
    → ((xs ≡ []) × (no_messages (tagged origin n xs) ≡ true))
      ⊎ ((0 < length xs) × (no_messages (tagged origin n xs) ≡ false))
unfolding tagged
no_messages-tagged origin n [] = inl (refl, refl)
no_messages-tagged origin n (x ∷ xs) = inr (omega arith, refl)

module _ (m : Mpi) (laws : Laws m) (reliable : Reliable m) (c : Crc) {k : Link}
    (link : IsLink k) where
  abbrev SoundDuo : Bool → Duo m → Type 0
  SoundDuo = Sound m laws reliable c link

  -- What a turn of the receiver goes on with, after the sender's work in it: it has seen what was
  -- the history at its poll, and its count says so.
  pub record Polled (d : Duo m) (first second : List Act) (got : ℕ) (stopping : Bool) : Type 0 where
    pub next : Duo m
    pub empty : Bool
    pub turned :
        turn_on m c k first second got stopping d
        ≡ after_on m c k (length d.flow.history) stopping empty next
    pub sound : Sound m laws reliable c link stopping next
    pub seen : next.flow.seen ≡ length d.flow.history
    pub grown : length next.flow.history ≤ length d.flow.history + length first + length second
    pub kept : d.stopped ≡ true → (next.flow.history ≡ d.flow.history) × (next.stopped ≡ true)
    pub stops_first : any_stop first ≡ true → next.stopped ≡ true
    pub stops_second : any_stop second ≡ true → next.stopped ≡ true
    pub was_empty : d.flow.seen ≡ length d.flow.history → empty ≡ true

  module _ (d : Duo m) (stopping : Bool) (s : SoundDuo stopping d) (first second : List Act)
      (fits : FitActs k first) (fits' : FitActs k second)
      (room : length d.flow.history + length first + length second + 1 < word_mod) where
    abbrev unseen : List (List ℕ)
    unseen = drop d.flow.seen d.flow.history

    abbrev batch : List Message
    batch = tagged (pos k.source) d.flow.seen unseen

    abbrev read : Duo m
    read = record d { flow = after_poll m c k d.flow }

    read-Sound : SoundDuo stopping read
    read-Sound = record { inv = poll-Inv m c link s.inv; known = s.known }

    read_all : read.flow.seen ≡ length d.flow.history
    read_all = (poll_inbox m c link s.inv).1

    batch_count : d.flow.seen + length unseen ≡ length d.flow.history
    batch_count = omega (arith, length-drop d.flow.seen d.flow.history, s.inv.seen_sent)

    polled_batch : poll_on m c k d ≡ (ok batch, read)
    polled_batch =
        let done = poll_outcome m c link s.inv in
        ap₂ (λ r ms. (poll_result m c k r ms, read)) (ap (λ r. r.0) done)
          (ap (λ r. drop (length d.flow.inbox) r.1.messages) done
            ∙ drop-length_append d.flow.inbox batch)

    -- Up to the acknowledgement.
    abbrev worked : Duo m
    worked = acts m c k first read

    worked-Advances : Advances m laws reliable c link stopping read worked (length first)
    worked-Advances =
        acts-Advances m laws reliable c link stopping first read fits (omega arith) read-Sound

    -- The turn after its poll, with the count brought up to date.
    turn_acks :
        (empty : Bool)
        → no_messages batch ≡ empty
        → turn_on m c k first second d.flow.seen stopping d
          ≡ acked_turn
              (poll_on m c k)
              (ack_on m c k)
              (λ e. e.waiting)
              (receive_on m c k)
              (acts m c k second)
              (length d.flow.history)
              stopping
              empty
              (ack_furthest
                (poll_on m c k)
                (ack_on m c k)
                (λ e. e.waiting)
                (receive_on m c k)
                (furthest batch 0)
                worked)
    unfolding polled_turn
    turn_acks empty e =
        let counted : add_word d.flow.seen (length batch) ≡ length d.flow.history =
          omega
            (arith, length-tagged (pos k.source) d.flow.seen unseen, batch_count, s.inv.fresh) in
        ap
          (polled_turn (poll_on m c k) (ack_on m c k) (λ x. x.waiting) (receive_on m c k)
            (acts m c k first) (acts m c k second) d.flow.seen stopping)
          polled_batch
        ∙ ap₂
            (λ n b.
              acked_turn (poll_on m c k) (ack_on m c k) (λ x. x.waiting) (receive_on m c k)
                (acts m c k second) n stopping b
                (ack_furthest (poll_on m c k) (ack_on m c k) (λ x. x.waiting) (receive_on m c k)
                  (furthest batch 0) worked))
            counted e

    -- From the acknowledgement to the probe: `flow` is what the acknowledgement left.
    acked_on :
        (flow : Flow m) (empty : Bool)
        → Inv m c k flow
        → flow.seen ≡ worked.flow.seen
        → flow.history ≡ worked.flow.history
        → turn_on m c k first second d.flow.seen stopping d
          ≡ after_on m c k
              (length d.flow.history)
              stopping
              empty
              (acts m c k second (record worked { flow = flow }))
        → (d.flow.seen ≡ length d.flow.history → empty ≡ true)
        → Polled d first second d.flow.seen stopping
    acked_on flow empty inv seen same turned was =
        let x : Duo m = record worked { flow = flow } in
        let one = worked-Advances in
        let size = ap length same in
        let two =
          acts-Advances m laws reliable c link stopping second x fits'
            (omega (arith, one.grown, size)) (record { inv = inv; known = one.sound.known }) in
        let stays : worked.stopped ≡ true → acts m c k second x ≡ x =
          acts_stopped m laws reliable c link second x in
        record {
          next = acts m c k second x;
          empty = empty;
          turned = turned;
          sound = two.sound;
          seen = two.seen ∙ seen ∙ one.seen ∙ read_all;
          grown = omega (arith, one.grown, two.grown, size);
          kept = λ over.
              let still = acts_stopped m laws reliable c link first read over in
              let halted : worked.stopped ≡ true = ap (λ y. y.stopped) still ∙ over in
              (
                ap (λ y. y.flow.history) (stays halted) ∙ same ∙ ap (λ y. y.flow.history) still,
                ap (λ y. y.stopped) (stays halted) ∙ halted,
              );
          stops_first = λ e.
              let halted = acts_stop m laws reliable c link first read e in
              ap (λ y. y.stopped) (stays halted) ∙ halted;
          stops_second = acts_stop m laws reliable c link second x;
          was_empty = was;
        }

    nothing_read : unseen ≡ [] → Polled d first second d.flow.seen stopping
    unfolding acked_turn ack_furthest furthest tagged
    nothing_read none_new =
        let no_batch : batch ≡ [] = ap (tagged (pos k.source) d.flow.seen) none_new in
        acked_on worked.flow true worked-Advances.sound.inv refl refl
          (turn_acks true (ap no_messages no_batch) ∙ rw no_batch refl) (λ _. refl)

    some_read :
        0 < length unseen → no_messages batch ≡ false → Polled d first second d.flow.seen stopping
    unfolding acked_turn ack_furthest
    some_read some_new full =
        let last : furthest batch 0 ≡ length d.flow.history =
          furthest_all (pos k.source) d.flow.seen unseen some_new ∙ batch_count in
        let n = length d.flow.history in
        let positive : ltb 0 n ≡ true = lt→ltb 0 n (omega (arith, batch_count)) in
        let inv = worked-Advances.sound.inv in
        let accepted =
          (ack_outcome m laws reliable c link inv n).0.1
            (omega (arith, read_all, worked-Advances.seen)) in
        acked_on (Protocol.after_ack m c k n worked.flow) false
          (ack-Inv m laws reliable c link inv n) refl refl
          (turn_acks false full ∙ rw (last, positive, accepted) refl)
          (λ e. absurd (omega (arith, e, batch_count)))

    pub polled : Polled d first second d.flow.seen stopping
    polled = elim (no_messages-tagged (pos k.source) d.flow.seen unseen) [
      | inl (none_new, empty) ↦ nothing_read none_new
      | inr (some_new, full) ↦ some_read some_new full
    ]
