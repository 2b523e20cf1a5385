-- ===== src/Ring/Slots/Reads.antt =====
-- `probe` and `frame` by the region that they read.
use mpi_rma.Base.{ℕ, ◌+◌, ◌-◌, ◌<◌, ◌≡◌, refl, arith, some}
use mpi_rma.Base.{List, slice, slice-slice, as_usize, get_elem?, add_word, sub_word}
use mpi_rma.Mpi.{Mpi}
use mpi_rma.Crc.{Crc}
use mpi_rma.Window.{Window, local}
use mpi_rma.Window.Bounds.{IsWindow, read_local-slice, read_local_volatile-slice}
use mpi_rma.Ring.Types.{word, Lane}
use mpi_rma.Ring.Image.{inspect}
use mpi_rma.Ring.Send.{slot_at}
use mpi_rma.Ring.Regions.{IsPlaced, region, slot_inside}
use mpi_rma.Ring.Slots.{seen_words, probe, judged, frame}

module _ (m : Mpi) {slots : Window} {w : m.World} (v : IsWindow m slots w) {total : ℕ}
    (own : get_elem? slots.lengths (as_usize slots.rank) ≡ some total) {lane : Lane}
    (placed : IsPlaced lane total) (p : ℕ) (h : p < lane.depth) where
  abbrev memory : List ℕ
  memory = local m slots w

  abbrev pub image : List ℕ
  image = region lane p memory

  tail_at :
      sub_word (add_word (slot_at lane p) lane.slot) word ≡ slot_at lane p + (lane.slot - word)
  tail_at = omega (arith, slot_inside placed p h, placed.addressable, placed.is_lane.slot_size)

  pub probe-region :
      (corrupt : ℕ)
      → probe m slots w lane p corrupt
        ≡ seen_words (slice 0 word image) (slice (lane.slot - word) word image) corrupt
  unfolding probe
  probe-region corrupt =
      let size = placed.is_lane.slot_size in
      let room = slot_inside placed p h in
      let head = read_local_volatile-slice m v (slot_at lane p) word own (omega arith) in
      let tail =
        read_local_volatile-slice m v (slot_at lane p + (lane.slot - word)) word own
          (omega arith) in
      let head_in =
        slice-slice (slot_at lane p) lane.slot 0 word (slot_at lane p) memory (omega arith)
          (omega arith) in
      let tail_in =
        slice-slice (slot_at lane p) lane.slot (lane.slot - word) word
          (slot_at lane p + (lane.slot - word)) memory (omega arith) refl in
      rw (tail_at, head_in, tail_in, head, tail)

  pub frame-region :
      (c : Crc) (corrupt : ℕ)
      → frame m c slots w lane p corrupt ≡ judged (inspect c lane image) corrupt
  unfolding frame
  frame-region c corrupt =
      rw (read_local-slice m v (slot_at lane p) lane.slot own (slot_inside placed p h)) refl
