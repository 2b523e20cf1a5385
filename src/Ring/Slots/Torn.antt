-- ===== src/Ring/Slots/Torn.antt =====
-- A slot that is read while a message is written over another.
use mpi_rma.Base.{ℕ, ◌-◌, ◌≤◌, ◌<◌, ◌≡◌, ◌≢◌, ◌∙◌, ap, arith, none, some, List, length}
use mpi_rma.Base.{slice, from_le, not_word, word_mod, as_usize, get_elem?, add_word}
use mpi_rma.Error.{ok}
use mpi_rma.Mpi.{Mpi}
use mpi_rma.Crc.{Crc}
use mpi_rma.Window.{Window}
use mpi_rma.Window.Bounds.{IsWindow}
use mpi_rma.Ring.Types.{word, Lane}
use mpi_rma.Ring.Image.{build}
use mpi_rma.Ring.Image.RoundTrip.{head-build, tail-build}
use mpi_rma.Ring.Image.Reject.{inspect_torn}
use mpi_rma.Ring.Regions.{IsPlaced}
use mpi_rma.Ring.Slots.{probe, judged, frame}
use mpi_rma.Ring.Slots.Reads.{image, probe-region, frame-region}

module _ (m : Mpi) {slots : Window} {w : m.World} (v : IsWindow m slots w) {total : ℕ}
    (own : get_elem? slots.lengths (as_usize slots.rank) ≡ some total) {lane : Lane}
    (placed : IsPlaced lane total) (p : ℕ) (h : p < lane.depth) (c : Crc) where
  -- On a lane that lies in this rank's window: a slot that begins as the image of one message and
  -- ends as the image of another one, with different sequence numbers of which the first is not
  -- zero, and with payloads that fit, whatever stands between, is taken for no message by `probe`
  -- and by `frame`, each of which counts it as corrupt once.
  pub torn_counted :
      (scratch scratch' : List ℕ) (s s' : ℕ) (bytes bytes' : List ℕ)
      → length bytes ≤ lane.capacity
      → length bytes' ≤ lane.capacity
      → s ≢ 0
      → s < word_mod
      → s' < word_mod
      → s' ≢ s
      → slice 0 word (image m v own placed p h) ≡ slice 0 word (build c lane scratch s bytes)
      → slice (lane.slot - word) word (image m v own placed p h)
        ≡ slice (lane.slot - word) word (build c lane scratch' s' bytes')
      → (corrupt : ℕ)
      → (probe m slots w lane p corrupt ≡ (ok none, add_word corrupt 1))
        × (frame m c slots w lane p corrupt ≡ (ok none, add_word corrupt 1))
  torn_counted scratch scratch' s s' bytes bytes' fits fits' nonzero small small' ne first last
        corrupt =
      let there = image m v own placed p h in
      let head : from_le (slice 0 word there) ≡ s =
        ap from_le first ∙ head-build c lane scratch s bytes placed.is_lane fits small in
      let tail : from_le (slice (lane.slot - word) word there) ≡ not_word s' =
        ap from_le last ∙ tail-build c lane scratch' s' bytes' placed.is_lane fits' small' in
      (
        probe-region m v own placed p h corrupt ∙ ground (arith, head, tail, ne, nonzero),
        frame-region m v own placed p h c corrupt
            ∙ ap (λ x. judged x corrupt)
                (inspect_torn c lane there s' (λ e. omega (arith, head, e, nonzero))
                  (omega (arith, head)) small' tail (λ e. ne (e ∙ head))),
      )
