-- ===== src/Ring/Send/Transmit.antt =====
-- The put of `send`: with a library that does not fail it fills exactly the slot of the sequence.
use mpi_rma.Base.{ℕ, ◌+◌, ◌-◌, ◌%◌, ◌≤◌, ◌<◌, ◌≡◌, ◌≢◌, refl, arith, some, ◌⊎◌}
use mpi_rma.Base.{List, length, overwrite, pos, get_elem?}
use native.Mathlib.Nat.{mod-lt}
use mpi_rma.Error.{Result, ok}
use mpi_rma.Mpi.{Mpi, Laws, Reliable}
use mpi_rma.Crc.{Crc}
use mpi_rma.Window.{Window, validate, put}
use mpi_rma.Window.Bounds.{IsWindow, validate_iff}
use mpi_rma.Window.Transfer.{put_total, put_lands, put-IsWindow}
use mpi_rma.Ring.Types.{Lane}
use mpi_rma.Ring.Image.{build}
use mpi_rma.Ring.Image.RoundTrip.{length-build}
use mpi_rma.Ring.Regions.{IsPlaced, slot_inside}
use mpi_rma.Ring.Send.{Sending, slot_at, transmit}

module _ (m : Mpi) (c : Crc) (slots : Window) (lane : Lane) (d : ℕ) (s : Sending m) (sequence : ℕ)
    (bytes : List ℕ) where
  abbrev pub position : ℕ
  position = (sequence - 1) % lane.depth

  abbrev pub image : List ℕ
  image = build c lane s.out.image sequence bytes

  -- `Ok` with the sequence number, and the image in its slot and nowhere else.
  pub record Transmitted (r : Result ℕ × Sending m) : Type 0 where
    pub returned : r.0 ≡ ok sequence
    pub sent : r.1.out.sent ≡ sequence
    pub acked : r.1.out.acked ≡ s.out.acked
    pub written :
        m.memory slots.win d r.1.world
        ≡ overwrite (m.memory slots.win d s.world) (slot_at lane position) image
    pub elsewhere :
        (win d' : ℕ)
        → (win ≢ slots.win) ⊎ (d' ≢ d)
        → m.memory win d' r.1.world ≡ m.memory win d' s.world
    pub windows : (t : Window) → IsWindow m t s.world → IsWindow m t r.1.world

module _ (m : Mpi) (laws : Laws m) (reliable : Reliable m) (c : Crc) {slots : Window} {lane : Lane}
    (d : ℕ) (s : Sending m) (v : IsWindow m slots s.world) {total : ℕ}
    (there : get_elem? slots.lengths d ≡ some total) (placed : IsPlaced lane total) (sequence : ℕ)
    (bytes : List ℕ) where
  abbrev at : ℕ
  at = position m c slots lane d s sequence bytes

  abbrev bits : List ℕ
  bits = image m c slots lane d s sequence bytes

  in_lane : at < lane.depth
  in_lane = mod-lt (sequence - 1) placed.is_lane.deep

  in_window : slot_at lane at + length bits ≤ total
  in_window = rw (length-build c lane s.out.image sequence bytes) (slot_inside placed at in_lane)

  allowed : validate slots (pos d) (slot_at lane at) (length bits) ≡ ok tt
  allowed = (validate_iff slots v.size (pos d) (slot_at lane at) (length bits)).1 (record {
    index = d;
    total = total;
    is_rank = refl;
    is_length = there;
    fits = in_window;
    no_overflow = omega (arith, in_window, placed.addressable);
  })

  after : Result (Unit {0}) × m.World
  after = put m slots (pos d) (slot_at lane at) bits s.world

  after_ok : after ≡ (ok tt, after.1)
  unfolding after
  after_ok =
      let done = put_total m reliable slots d (slot_at lane at) bits s.world allowed (
        rw (length-build c lane s.out.image sequence bytes)
          (omega (arith, placed.is_lane.slot_small))) in
      ground (arith, done)

  roomy : slot_at lane at + length bits ≤ length (m.memory slots.win d s.world)
  roomy = rw (v.stored d total there) in_window

  pub transmit_lem :
      Transmitted m c slots lane d s sequence bytes
        (transmit m c slots lane (pos d) bytes sequence s)
  unfolding transmit after
  transmit_lem = rw after_ok (record {
    returned = refl;
    sent = refl;
    acked = refl;
    written = (put_lands m laws slots d (slot_at lane at) bits s.world after.1 roomy after_ok).0;
    elsewhere = (put_lands m laws slots d (slot_at lane at) bits s.world after.1 roomy after_ok).1;
    windows = put-IsWindow m laws slots d (slot_at lane at) bits s.world after.1 roomy after_ok;
  })
