-- ===== src/Ring/Send.antt =====
-- src/ring.rs: `send`, `acknowledged` and `peer`. The state that a call works on is the lane's
-- `Outgoing` behind its mutex, the counter `full`, and the world.
pub mod Gate
pub mod Transmit
use mpi_rma.Base.{ℕ, ◌-◌, ◌%◌, Option, none, some, List, length}
use mpi_rma.Base.{ℤ, pos, get_elem?, get_or, set, ltb, leb, if◌then◌else◌}
use mpi_rma.Base.{add_word, sub_word, mul_word, checked_add, as_usize, ltb_ℤ, ◌||◌}
use mpi_rma.Error.{Error, Result, ok, err, panic}
use mpi_rma.Error.{ring, full, payload}
use mpi_rma.Action.{Action, and_then}
use mpi_rma.Mpi.{Mpi}
use mpi_rma.Crc.{Crc}
use mpi_rma.Window
use mpi_rma.Window.{Window}
use mpi_rma.Ring.Types.{Lane, Outgoing, lock, unlock, Ring}
use mpi_rma.Ring.Image.{build}

-- The rank as an index, if it is in the communicator.
unfoldable pub peer : Ring → ℤ → Result ℕ
peer r rank =
    if ltb_ℤ rank (pos 0) || leb r.ranks (as_usize rank)
    then err (Error.rank rank)
    else ok (as_usize rank)

-- The start of a lane's slot, in its destination's window.
abbrev pub slot_at : Lane → ℕ → ℕ
slot_at lane position = add_word lane.offset (mul_word position lane.slot)

module _ (m : Mpi) where
  open m use {World}

  pub record Sending : Type 0 where
    pub out : Outgoing
    pub refused : ℕ
    pub world : World

  unfoldable pub acknowledged : Window → Lane → (sent acked : ℕ) → World → Result ℕ
  acknowledged acks lane sent acked w = elim (Window.read_local_volatile m acks lane.ack 1 w) [
    | ok read ↦
        let value = get_or read 0 0 in
        if ltb value acked
        then err (ring "acknowledgement counter regressed")
        else if ltb sent value
        then err (ring "acknowledgement exceeds sent sequence")
        else ok value
    | err e ↦ err e
    | panic ↦ panic
  ]

  -- The overwrite gate of a safe ring; a raw ring has no counter window and passes.
  unfoldable pub gate : Option Window → Lane → ℕ → Action Sending (Unit {0})
  gate none lane sequence s = (ok tt, s)
  gate (some acks) lane sequence s =
      if ltb lane.depth (sub_word sequence s.out.acked)
      then elim (acknowledged acks lane s.out.sent s.out.acked s.world) [
        | ok value ↦
            let s' = record s { out = record s.out { acked = value } } in
            if ltb lane.depth (sub_word sequence value)
            then (err full, record s' { refused = add_word s.refused 1 })
            else (ok tt, s')
        | err e ↦ (err e, s)
        | panic ↦ (panic, s)
      ]
      else (ok tt, s)

  module _ (c : Crc) where
    abbrev landed : ℕ → List ℕ → Outgoing → ℕ → Result (Unit {0}) × World → Result ℕ × Sending
    landed sequence image out refused (ok _, w) = (
      ok sequence,
      record { out = record out { sent = sequence; image = image }; refused = refused; world = w },
    )
    landed sequence image out refused (err e, w) =
        (err e, record { out = record out { image = image }; refused = refused; world = w })
    landed sequence image out refused (panic, w) =
        (panic, record { out = record out { image = image }; refused = refused; world = w })

    -- Image, put, and the new `sent`, which a failed put leaves alone.
    unfoldable pub transmit : Window → Lane → ℤ → List ℕ → ℕ → Action Sending ℕ
    transmit slots lane destination bytes sequence s =
        let image = build c lane s.out.image sequence bytes in
        let position = (sequence - 1) % lane.depth in
        landed sequence image s.out s.refused
          (Window.put m slots destination (slot_at lane position) image s.world)

    -- `send` from the lock on.
    unfoldable pub send_lane : Window → Option Window → Lane → ℤ → List ℕ → Action Sending ℕ
    send_lane slots acks lane destination bytes s = elim (checked_add s.out.sent 1) [
      | none ↦ (err (ring "sequence number exhausted"), s)
      | some sequence ↦
          and_then (gate acks lane sequence s) (λ _. transmit slots lane destination bytes sequence)
    ]

    -- What `send` checks before it takes the lane's lock, and the state behind it.
    unfoldable pub admit : Ring → ℤ → List ℕ → Result (ℕ × Lane × Outgoing)
    unfolding peer
    admit r destination bytes = elim (peer r destination) [
      | err e ↦ err e
      | panic ↦ panic
      | ok i ↦ elim (get_elem? r.to i) [
        | none ↦ panic
        | some none ↦ err (ring "directed lane is not configured")
        | some (some lane) ↦
            if ltb lane.capacity (length bytes)
            then err (payload (length bytes) lane.capacity)
            else elim (get_elem? r.sent i) [
              | none ↦ panic
              | some mutex ↦ elim (lock mutex (ring "send state poisoned")) [
                | ok out ↦ ok (i, lane, out)
                | err e ↦ err e
                | panic ↦ panic
              ]
            ]
      ]
    ]

    abbrev put_back : Ring → ℕ → Result ℕ × Sending → Result ℕ × Ring × World
    put_back r i (res, s) =
        (res, record r { sent = set r.sent i (unlock res s.out); full = s.refused }, s.world)

    unfoldable pub send : Ring → ℤ → List ℕ → World → Result ℕ × Ring × World
    send r destination bytes w = elim (admit r destination bytes) [
      | err e ↦ (err e, r, w)
      | panic ↦ (panic, r, w)
      | ok (i, lane, out) ↦ put_back r i (
          send_lane r.slots r.acks lane destination bytes
            (record { out = out; refused = r.full; world = w }))
    ]
