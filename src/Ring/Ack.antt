-- ===== src/Ring/Ack.antt =====
-- src/ring.rs: `ack`.
pub mod Counter
pub mod Effect
use mpi_rma.Base.{ℕ, none, some, List}
use mpi_rma.Base.{ℤ, get_elem?, set, ltb, leb, ◌==◌, if◌then◌else◌, sub_word}
use mpi_rma.Error.{Error, Result, ok, err, panic, ring, or_panic}
use mpi_rma.Mpi.{Mpi}
use mpi_rma.Window
use mpi_rma.Window.{Window}
use mpi_rma.Ring.Types.{Lane, lock, unlock, Ring}
use mpi_rma.Ring.Send.{peer}

module _ (m : Mpi) where
  open m use {World}

  abbrev pub counted : ℕ → ℕ → Result ℕ × World → Result (Unit {0}) × ℕ × World
  counted acked sequence (ok previous, w) =
      if previous == acked
      then (ok tt, sequence, w)
      else (err (ring "acknowledgement counter diverged"), acked, w)
  counted acked sequence (err e, w) = (err e, acked, w)
  counted acked sequence (panic, w) = (panic, acked, w)

  -- `ack` on one safe lane, with the outcome of locking `seen`: the result, the local
  -- acknowledgement, and the world.
  unfoldable pub ack_lane :
      Window → Lane → ℤ → Result ℕ → (acked sequence : ℕ) → World → Result (Unit {0}) × ℕ × World
  ack_lane acks lane origin seen acked sequence w =
      if leb sequence acked then (ok tt, acked, w) else elim seen [
        | err e ↦ (err e, acked, w)
        | panic ↦ (panic, acked, w)
        | ok s ↦
            if ltb s sequence
            then (err (Error.ack origin sequence s), acked, w)
            else counted acked sequence
                (Window.fetch_add m acks origin lane.ack (sub_word sequence acked) w)
      ]

  abbrev pub put_back :
      Ring → List ℕ → ℕ → Result (Unit {0}) × ℕ × World → Result (Unit {0}) × Ring × World
  put_back r acked i (res, a, w) = (res, record r { acked = unlock res (set acked i a) }, w)

  abbrev pub seen_from : Ring → ℕ → Result ℕ
  seen_from r i = elim (lock r.seen (ring "receive state poisoned")) [
    | ok seen ↦ or_panic (get_elem? seen i)
    | err e ↦ err e
    | panic ↦ panic
  ]

  unfoldable pub ack : Ring → ℤ → ℕ → World → Result (Unit {0}) × Ring × World
  unfolding peer
  ack r origin sequence w = elim (peer r origin) [
    | err e ↦ (err e, r, w)
    | panic ↦ (panic, r, w)
    | ok i ↦ elim r.acks [
      | none ↦ (ok tt, r, w)
      | some acks ↦ elim (get_elem? r.from i) [
        | none ↦ (panic, r, w)
        | some none ↦ (err (ring "directed lane is not configured"), r, w)
        | some (some lane) ↦ elim (lock r.acked (ring "acknowledgement state poisoned")) [
          | err e ↦ (err e, r, w)
          | panic ↦ (panic, r, w)
          | ok acked ↦ elim (get_elem? acked i) [
            | none ↦ (panic, record r { acked = unlock {B = ℕ} panic acked }, w)
            | some a ↦ put_back r acked i (ack_lane acks lane origin (seen_from r i) a sequence w)
          ]
        ]
      ]
    ]
  ]
