-- ===== src/Soak/Poller/Live.antt =====
-- The poller thread over a ring: `ring.poll()` and `ring.ack(…)` are the ring's own calls.
use mpi_rma.Base.{
  ℕ, ◌<◌, ◌≡◌, ◌≢◌, refl, sym, ◌∙◌, ap, Bool, true, some, List, [], ℤ, word_mod, All, as_usize, inl,
  inr,
}
use mathlib.Core.Path.{subst}
use mpi_rma.Error.{Result, ok}
use mpi_rma.Mpi.{Mpi, Laws}
use mpi_rma.Crc.{Crc}
use mpi_rma.Window.{Window}
use mpi_rma.Window.Bounds.{IsWindow}
use mpi_rma.Ring.Types.{Message, Ring, is_safe}
use mpi_rma.Ring.Poll.{poll}
use mpi_rma.Ring.Poll.Results.{polled}
use mpi_rma.Ring.Poll.Balance.{Sound}
use mpi_rma.Ring.Poll.Ledger.{poll-Sound}
use mpi_rma.Ring.Ack.{ack}
use mpi_rma.Ring.Ack.Effect.{ack-Acked, fetch_effect}
use mpi_rma.Soak.Poller.Tracks.{Ready, lanes-Tracks}

module _ (m : Mpi) where
  -- What the thread shares: the ring, the world, and the flag `done` of the main thread.
  pub record Live : Type 0 where
    pub ring : Ring
    pub world : m.World
    pub barrier : Bool

  abbrev pub poll_live : Crc → Live → Result (List Message) × Live
  poll_live c s = let r = poll m c s.ring s.world in (r.0, record s { ring = r.1 })

  abbrev pub ack_live : ℤ → ℕ → Live → Result (Unit {0}) × Live
  ack_live origin sequence s =
      let r = ack m s.ring origin sequence s.world in (r.0, record s { ring = r.1; world = r.2 })

  -- A ring over its windows, with lanes inside and words for cursors.
  pub record Healthy (safe : Bool) (s : Live) : Type 0 where
    pub sound : Sound m s.world s.ring
    pub agrees : is_safe s.ring ≡ safe
    pub small : safe ≡ true → All (λ n. n < word_mod) s.ring.seen.value
    pub counter_window :
        (a : Window) → s.ring.acks ≡ some a → IsWindow m a s.world × (a.win ≢ s.ring.slots.win)

  -- What every other thread leaves of the ring: its receiving side.
  pub record Keeps (safe : Bool) (s t : Live) : Type 0 where
    pub healthy : Healthy safe t
    pub seen : t.ring.seen ≡ s.ring.seen
    pub lost : t.ring.lost ≡ s.ring.lost
    pub lanes : t.ring.from ≡ s.ring.from

  module _ (c : Crc) (safe : Bool) where
    pub Healthy-Ready :
        (s : Live)
        → Healthy safe s
        → Ready m c s.world safe (record { ring = s.ring; seen = s.ring.seen.value; messages = [] })
    Healthy-Ready s h = record {
      agrees = h.agrees;
      window = h.sound.window;
      total = h.sound.total;
      own = h.sound.own;
      lanes = h.sound.lanes;
      small = h.small;
    }

    -- A successful poll keeps the ring healthy.
    pub poll-Healthy :
        (s : Live) (ms : List Message) (r' : Ring)
        → Healthy safe s
        → poll m c s.ring s.world ≡ (ok ms, r')
        → Healthy safe (record s { ring = r' }) × (r'.from ≡ s.ring.from)
    unfolding is_safe
    poll-Healthy s ms r' h e =
        let (sound, from, acks, slots) = poll-Sound m s.world c s.ring r' ms h.sound e in
        let t = lanes-Tracks m c s.world safe s.ring.incoming (Healthy-Ready s h) in
        let (_, now, _) = polled m c s.world s.ring ms r' e in
        (
          record {
            sound = sound;
            agrees = ap (λ a. is_safe (record r' { acks = a })) acks ∙ h.agrees;
            small = λ yes_safe. subst (All (λ n. n < word_mod)) now (t.ready.small yes_safe);
            counter_window = λ a there.
                let (valid, away) = h.counter_window a (sym acks ∙ there) in
                (valid, λ q. away (q ∙ ap (λ x. x.win) slots));
          },
          from,
        )

  module _ (laws : Laws m) (safe : Bool) (s : Live) (h : Healthy safe s) (w' : m.World)
      (others : (win d : ℕ) → win ≡ s.ring.slots.win → m.memory win d w' ≡ m.memory win d s.world)
      (windows : (t : Window) → IsWindow m t s.world → IsWindow m t w') where
    -- The ring stays healthy in a world where its slots are as they were.
    elsewhere-Healthy : Healthy safe (record s { world = w' })
    elsewhere-Healthy = record {
      sound = record {
        window = windows s.ring.slots h.sound.window;
        total = h.sound.total;
        own = h.sound.own;
        lanes = h.sound.lanes;
        heads = λ i lane p e lt.
            rw (others s.ring.slots.win (as_usize s.ring.slots.rank) refl)
              (h.sound.heads i lane p e lt);
      };
      agrees = h.agrees;
      small = h.small;
      counter_window =
          λ a there. let (valid, away) = h.counter_window a there in (windows a valid, away);
    }

  module _ (laws : Laws m) (safe : Bool) where
    -- An acknowledgement that succeeds keeps the receiving side.
    pub ack-Keeps :
        (origin : ℤ) (sequence : ℕ) (s : Live)
        → Healthy safe s
        → (ack_live origin sequence s).0 ≡ ok tt
        → Keeps safe s (ack_live origin sequence s).1
    unfolding is_safe
    ack-Keeps origin sequence s h e =
        let r' = (ack m s.ring origin sequence s.world).1 in
        let w' = (ack m s.ring origin sequence s.world).2 in
        let a = ack-Acked m origin s.world w' s.ring r' sequence (ap (λ x. (x, r', w')) e) in
        let moved : Healthy safe (record s { world = w' }) = elim a.moved [
          | inl idle ↦ rw idle h
          | inr (counter_window, there, change) ↦ elim change [
            | inl idle ↦ rw idle h
            | inr (disp, v, got, call) ↦
                let (valid, away) = h.counter_window counter_window there in
                let (others, windows) =
                  fetch_effect m laws counter_window origin s.world w' valid disp v got call in
                elsewhere-Healthy laws safe s h w' (λ win d q. others win d (λ z. away (sym z ∙ q)))
                  windows
          ]
        ] in
        record {
          healthy =
              subst (λ r. Healthy safe (record s { ring = r; world = w' })) (sym a.others)
                (record {
                  sound = record {
                    window = moved.sound.window;
                    total = moved.sound.total;
                    own = moved.sound.own;
                    lanes = moved.sound.lanes;
                    heads = moved.sound.heads;
                  };
                  agrees = moved.agrees;
                  small = moved.small;
                  counter_window = moved.counter_window;
                });
          seen = ap (λ r. r.seen) a.others;
          lost = ap (λ r. r.lost) a.others;
          lanes = ap (λ r. r.from) a.others;
        }
