-- ===== src/Ring/Send/Gate.antt =====
-- The overwrite gate of a safe lane, by the value of its acknowledgement counter.
use mpi_rma.Base.{ℕ, zero, suc, ◌+◌, ◌≤◌, ◌<◌, ◌≡◌, ◌↔◌, refl, arith, some}
use mpi_rma.Base.{List, [], ◌∷◌, slice, as_usize, get_elem?, word_mod, add_word, ltb, leb}
use mpi_rma.Base.{if◌then◌else◌}
use mpi_rma.Error.{ok, err, ring, full}
use mpi_rma.Mpi.{Mpi}
use mpi_rma.Window.{Window, local}
use mpi_rma.Window.Bounds.{IsWindow, read_local_volatile-slice}
use mpi_rma.Ring.Types.{Lane}
use mpi_rma.Ring.Send.{Sending, acknowledged, gate}

slice-one : (memory : List ℕ) (at v : ℕ) → get_elem? memory at ≡ some v → slice at 1 memory ≡ v ∷ []
slice-one [] at v e = cc
slice-one (x ∷ xs) zero v e = cc
slice-one (x ∷ xs) (suc at) v e = slice-one xs at v e

module _ (m : Mpi) {acks : Window} (lane : Lane) (s : Sending m) (v : IsWindow m acks s.world)
    {total : ℕ} (own : get_elem? acks.lengths (as_usize acks.rank) ≡ some total)
    (inside : lane.ack < total) (counter : ℕ)
    (reads : get_elem? (local m acks s.world) lane.ack ≡ some counter) where
  -- The counter as the sender reads it: one that went back, or passed what was sent, is an error.
  pub acknowledged_lem :
      (sent acked : ℕ)
      → acknowledged m acks lane sent acked s.world ≡ (
          if ltb counter acked
          then err (ring "acknowledgement counter regressed")
          else (if ltb sent counter
              then err (ring "acknowledgement exceeds sent sequence")
              else ok counter))
  unfolding acknowledged
  acknowledged_lem sent acked =
      rw
        (
          read_local_volatile-slice m v lane.ack 1 own (omega arith),
          slice-one _ lane.ack counter reads,
          acknowledged,
        )
        refl

  module _ (cached : s.out.acked ≤ counter) (honest : counter ≤ s.out.sent)
      (fresh : s.out.sent + 1 < word_mod) where
    refreshed : Sending m
    refreshed = record s { out = record s.out { acked = counter } }

    refused : Sending m
    unfolding refreshed
    refused = record refreshed { refused = add_word s.refused 1 }

    -- The gate by plain arithmetic.
    gate_lem : gate m (some acks) lane (s.out.sent + 1) s ≡ (
        if leb (s.out.sent + 1) (s.out.acked + lane.depth)
        then (ok tt, s)
        else (if leb (s.out.sent + 1) (counter + lane.depth)
            then (ok tt, refreshed)
            else (err full, refused)))
    unfolding gate refused
    gate_lem = ground (arith, acknowledged_lem s.out.sent s.out.acked)

    -- With a counter between the cached value and what was sent, the gate lets sequence `sent + 1`
    -- pass exactly when its slot's previous occupant, `sent + 1 - depth`, has been acknowledged,
    -- and answers `Full` exactly otherwise. It leaves `sent`, the image and the world alone, and a
    -- cached counter between the old one and the true one.
    pub gate_tight :
        let r = gate m (some acks) lane (s.out.sent + 1) s in
        ((r.0 ≡ ok tt) ↔ (s.out.sent + 1 ≤ counter + lane.depth))
        × ((r.0 ≡ err full) ↔ (counter + lane.depth < s.out.sent + 1))
        × (r.1.out.sent ≡ s.out.sent)
        × (r.1.out.image ≡ s.out.image)
        × (s.out.acked ≤ r.1.out.acked)
        × (r.1.out.acked ≤ counter)
        × (r.1.world ≡ s.world)
    unfolding refused
    gate_tight = rw gate_lem (
      (λ e. ground arith, λ h. ground arith),
      (λ e. ground arith, λ h. ground arith),
      ground arith,
      ground arith,
      ground arith,
      ground arith,
      ground arith,
    )
