-- ===== src/Ring/Poll.antt =====
-- src/ring.rs: `poll`. Polling calls no MPI: it reads the world and does not change it. A lane's
-- loop works on a cursor, which `poll` writes back to the ring.
pub mod Rounds
pub mod Drain
pub mod Recovery
pub mod Relate
pub mod Order
pub mod Accounting
pub mod Balance
pub mod Results
pub mod Ledger
use mpi_rma.Base.{ℕ, zero, suc, ◌-◌, ◌%◌, Bool, true, false, not, none, some, max}
use mpi_rma.Base.{List, [], ◌∷◌, ◌++◌, ℤ, get_elem?, set, ltb, ◌==◌, if◌then◌else◌}
use mpi_rma.Base.{add_word, sub_word, checked_add, saturating_add, as_usize}
use mpi_rma.Error.{Error, Result, ok, err, panic, ring}
use mpi_rma.Action.{Action, and_then}
use mpi_rma.Mpi.{Mpi}
use mpi_rma.Crc.{Crc}
use mpi_rma.Window.{Window}
use mpi_rma.Ring.Slots.{probe, frame, recover}
use mpi_rma.Ring.Types.{Message, Lane, Frame, lock, unlock, Ring, is_safe}

-- What one call of `poll` knows of a lane, beside the counters of the whole ring and the messages
-- of the lanes before.
pub record Cursor : Type 0 where
  pub seen : ℕ
  pub lost : ℕ
  pub corrupt : ℕ
  pub messages : List Message

-- The messages of the recovered frames; a gap before a frame is counted as lost.
unfoldable pub absorb : ℤ → (next : ℕ) → List Frame → Cursor → Cursor
absorb origin next [] s = s
absorb origin next (f ∷ fs) s = elim (ltb f.sequence next) [
  | true ↦ absorb origin next fs s
  | false ↦ absorb origin (saturating_add f.sequence 1) fs (record {
    seen = f.sequence;
    lost = add_word s.lost (sub_word f.sequence next);
    corrupt = s.corrupt;
    messages =
        s.messages ++ record { origin = origin; sequence = f.sequence; bytes = f.bytes } ∷ [];
  })
]

-- An action on the counter, as one on the cursor.
abbrev pub counting {ℓ} : {A : Type ℓ} → Action ℕ A → Action Cursor A
counting act s = let r = act s.corrupt in (r.0, record s { corrupt = r.1 })

abbrev pub deliver : ℤ → ℕ → List ℕ → Cursor → Cursor
deliver origin sequence bytes s = record s {
  seen = sequence;
  messages = s.messages ++ record { origin = origin; sequence = sequence; bytes = bytes } ∷ [];
}

-- The state of `poll` between lanes: the ring, the receive cursors behind its lock, and the
-- messages so far.
pub record Polling : Type 0 where
  pub ring : Ring
  pub seen : List ℕ
  pub messages : List Message

abbrev pub lane_done : Polling → ℕ → ℕ → Result (Unit {0}) × Cursor → Result (Unit {0}) × Polling
lane_done p i behind (ok _, s) = (
  ok tt,
  record {
    ring = record p.ring {
      lost = s.lost;
      corrupt = s.corrupt;
      max_lag = max p.ring.max_lag (sub_word s.seen behind);
    };
    seen = set p.seen i s.seen;
    messages = s.messages;
  },
)
lane_done p i behind (err e, s) = (
  err e,
  record {
    ring = record p.ring { lost = s.lost; corrupt = s.corrupt };
    seen = set p.seen i s.seen;
    messages = s.messages;
  },
)
lane_done p i behind (panic, s) = (
  panic,
  record {
    ring = record p.ring { lost = s.lost; corrupt = s.corrupt };
    seen = set p.seen i s.seen;
    messages = s.messages;
  },
)

abbrev pub finished : Result (Unit {0}) × Polling → Result (List Message) × Ring
finished (ok _, p) = (ok p.messages, record p.ring { seen = unlock {B = ℕ} (ok 0) p.seen })
finished (err e, p) = (err e, record p.ring { seen = unlock {B = ℕ} (err e) p.seen })
finished (panic, p) = (panic, record p.ring { seen = unlock {B = ℕ} panic p.seen })

module _ (m : Mpi) where
  open m use {World}

  module _ (c : Crc) where
    -- A slot that holds the expected sequence: snapshot it. `true` goes on with the loop.
    unfoldable pub accept : Window → World → Lane → ℤ → (expected position : ℕ) → Action Cursor Bool
    accept slots w lane origin expected position s =
        and_then (counting (frame m c slots w lane position) s) (λ got s'. elim got [
          | none ↦ (ok false, s')
          | some f ↦
              if not (f.sequence == expected)
              then (ok false, s')
              else (ok true, deliver origin expected f.bytes s')
        ])

    -- A slot that holds a later sequence.
    unfoldable pub lapped :
        Window → World → Bool → Lane → ℤ → (expected found : ℕ) → Action Cursor Bool
    lapped slots w safe lane origin expected found s =
        if safe
        then (err (Error.lapped origin expected found), s)
        else and_then (counting (recover m c slots w lane s.seen) s)
            (λ frames s'. (ok false, absorb origin expected frames s'))

    -- One round of the `while` loop; `false` leaves it.
    unfoldable pub round : Window → World → Bool → Lane → ℤ → Action Cursor Bool
    unfolding accept lapped
    round slots w safe lane origin s = elim (checked_add s.seen 1) [
      | none ↦ (ok false, s)
      | some expected ↦
          let position = (expected - 1) % lane.depth in
          and_then (counting (probe m slots w lane position) s) (λ found s'. elim found [
            | none ↦ (ok false, s')
            | some sequence ↦
                if ltb sequence expected
                then (ok false, s')
                else if ltb expected sequence
                then lapped slots w safe lane origin expected sequence s'
                else accept slots w lane origin expected position s'
          ])
    ]

    -- The `while` loop: `left` is `lane.depth - read`.
    unfoldable pub drain : Window → World → Bool → Lane → ℤ → (left : ℕ) → Action Cursor (Unit {0})
    drain slots w safe lane origin zero s = (ok tt, s)
    drain slots w safe lane origin (suc left) s =
        and_then (round slots w safe lane origin s) (λ more s'. elim more [
          | true ↦ drain slots w safe lane origin left s'
          | false ↦ (ok tt, s')
        ])

    unfoldable pub poll_lane : World → ℤ → Action Polling (Unit {0})
    unfolding is_safe
    poll_lane w origin p = elim (get_elem? p.ring.from (as_usize origin)) [
      | none ↦ (panic, p)
      | some none ↦ (err (Error.ring "directed lane is not configured"), p)
      | some (some lane) ↦ elim (get_elem? p.seen (as_usize origin)) [
        | none ↦ (panic, p)
        | some behind ↦ lane_done p (as_usize origin) behind (
            drain p.ring.slots w (is_safe p.ring) lane origin lane.depth (record {
              seen = behind;
              lost = p.ring.lost;
              corrupt = p.ring.corrupt;
              messages = p.messages;
            }))
      ]
    ]

    unfoldable pub poll_lanes : World → List ℤ → Action Polling (Unit {0})
    poll_lanes w [] p = (ok tt, p)
    poll_lanes w (origin ∷ rest) p = and_then (poll_lane w origin p) (λ _ p'. poll_lanes w rest p')

    -- The messages are those of all lanes, in the order of `incoming`.
    unfoldable pub poll : Ring → World → Result (List Message) × Ring
    poll r w = elim (lock r.seen (ring "receive state poisoned")) [
      | err e ↦ (err e, r)
      | panic ↦ (panic, r)
      | ok seen ↦
          finished (poll_lanes w r.incoming (record { ring = r; seen = seen; messages = [] }))
    ]
