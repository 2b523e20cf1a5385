-- ===== src/Ring/Layout/Linked.antt =====
-- The two ends of a lane that a layout gives.
use mpi_rma.Base.{ℕ, ◌<◌, ◌^◌, ◌≡◌, sym, ◌∙◌, arith, some, List, get_elem?}
use mpi_rma.Error.{ok}
use mpi_rma.Ring.Types.{Lane}
use mpi_rma.Ring.Regions.{IsPlaced}
use mpi_rma.Ring.Layout.Sorting.{Spec}
use mpi_rma.Ring.Layout.{Tables, layout}
use mpi_rma.Ring.Layout.Agreement.{Agree, InStep, layout-InStep}
use mpi_rma.Ring.Layout.Placement.{layout-LaidOut}

module _ (ranks a b : ℕ) (ha : a < ranks) (hb : b < ranks) (config : List Spec) (t u : Tables)
    (sender : layout ranks a config ≡ ok t) (receiver : layout ranks b config ≡ ok u) where
  -- Both ranks know the same lengths.
  pub in_step : Agree ranks a b t u
  in_step =
      let both : InStep ranks a b (ok t) (ok u) =
        rw (sender, receiver) at (layout-InStep ranks a b ha hb config) in
      both

  -- A lane in the sender's table towards the receiver stands in the receiver's table from the
  -- sender. It lies in the receiver's window, where that is less than 2^63 bytes, and its counter
  -- in the sender's.
  pub layout_links :
      (lane : Lane) (total count : ℕ)
      → get_elem? t.to b ≡ some (some lane)
      → get_elem? u.lengths b ≡ some total
      → get_elem? t.ack_lengths a ≡ some count
      → total < 2 ^ 63
      → (get_elem? u.from a ≡ some (some lane)) × IsPlaced lane total × (lane.ack < count)
  layout_links lane total count there size counters small =
      let out = layout-LaidOut ranks a config t ha sender in
      let inn = layout-LaidOut ranks b config u hb receiver in
      let here = sym in_step.lane ∙ there in
      let (whole, fits) = inn.inside a lane here in
      let same : inn.total ≡ total = ground (arith, inn.reaches, size) in
      let same' : out.count ≡ count = ground (arith, out.counts, counters) in
      (
        here,
        record { is_lane = whole; inside = omega (arith, fits, same); addressable = small },
        omega (arith, out.numbered b lane there, same'),
      )
