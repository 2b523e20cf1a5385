-- ===== src/Ring/Poll/Rounds.antt =====
-- One round of the loop of `poll`, by what the expected slot holds.
use mpi_rma.Base.{ℕ, ◌+◌, ◌-◌, ◌%◌, ◌≤◌, ◌<◌, ◌≡◌, arith, some, Bool, true, false}
use mpi_rma.Base.{List, ℤ, slice, as_usize, get_elem?, from_le, word_mod}
use native.Mathlib.Nat.{mod-lt}
use mpi_rma.Error.{ok}
use mpi_rma.Mpi.{Mpi}
use mpi_rma.Crc.{Crc}
use mpi_rma.Window.{Window, local}
use mpi_rma.Window.Bounds.{IsWindow}
use mpi_rma.Ring.Types.{word, Lane}
use mpi_rma.Ring.Image.{intact, inspect}
use mpi_rma.Ring.Image.Reject.{inspect_iff}
use mpi_rma.Ring.Regions.{IsPlaced, region}
use mpi_rma.Ring.Slots.{seen_words, judged, probe, frame}
use mpi_rma.Ring.Slots.Reads.{probe-region, frame-region}
use mpi_rma.Ring.Poll.{Cursor, deliver, round}

-- What a slot's bytes are for a receiver.
abbrev pub Holds : Crc → Lane → List ℕ → ℕ → List ℕ → Type 0
Holds c lane image sequence bytes =
    inspect c lane image ≡ intact (record { sequence = sequence; bytes = bytes })

abbrev pub IsVacant : List ℕ → Type 0
IsVacant image = from_le (slice 0 word image) ≡ 0

pub seen_words-Holds :
    (c : Crc) (lane : Lane) (image : List ℕ) (sequence : ℕ) (bytes : List ℕ) (corrupt : ℕ)
    → Holds c lane image sequence bytes
    → seen_words (slice 0 word image) (slice (lane.slot - word) word image) corrupt
      ≡ (ok (some sequence), corrupt)
seen_words-Holds c lane image sequence bytes corrupt held =
    let facts = (inspect_iff c lane image (record { sequence = sequence; bytes = bytes })).0 held in
    ground (arith, facts)

module _ (m : Mpi) (c : Crc) {slots : Window} {w : m.World} (v : IsWindow m slots w) {total : ℕ}
    (own : get_elem? slots.lengths (as_usize slots.rank) ≡ some total) {lane : Lane}
    (placed : IsPlaced lane total) (safe : Bool) (origin : ℤ) where
  abbrev pub expected_slot : Cursor → List ℕ
  expected_slot s = region lane (s.seen % lane.depth) (local m slots w)

  in_lane : (n : ℕ) → n % lane.depth < lane.depth
  in_lane n = mod-lt n placed.is_lane.deep

  probe_expected :
      (s : Cursor)
      → probe m slots w lane ((s.seen + 1 - 1) % lane.depth) s.corrupt
        ≡ seen_words
            (slice 0 word (expected_slot s))
            (slice (lane.slot - word) word (expected_slot s))
            s.corrupt
  probe_expected s =
      let same : s.seen + 1 - 1 ≡ s.seen = omega arith in
      rw same (probe-region m v own placed (s.seen % lane.depth) (in_lane s.seen) s.corrupt)

  frame_expected :
      (s : Cursor)
      → frame m c slots w lane ((s.seen + 1 - 1) % lane.depth) s.corrupt
        ≡ judged (inspect c lane (expected_slot s)) s.corrupt
  frame_expected s =
      let same : s.seen + 1 - 1 ≡ s.seen = omega arith in
      rw same (frame-region m v own placed (s.seen % lane.depth) (in_lane s.seen) c s.corrupt)

  -- The expected message is delivered and the loop goes on.
  pub round_take :
      (s : Cursor) (bytes : List ℕ)
      → s.seen + 1 < word_mod
      → Holds c lane (expected_slot s) (s.seen + 1) bytes
      → round m c slots w safe lane origin s ≡ (ok true, deliver origin (s.seen + 1) bytes s)
  unfolding round
  round_take s bytes small held = ground (
    arith,
    probe_expected s,
    seen_words-Holds c lane (expected_slot s) (s.seen + 1) bytes s.corrupt held,
    frame_expected s,
  )

  -- A slot never written ends the loop, and changes nothing.
  pub round_vacant :
      (s : Cursor)
      → s.seen + 1 < word_mod
      → IsVacant (expected_slot s)
      → round m c slots w safe lane origin s ≡ (ok false, s)
  unfolding round
  round_vacant s small empty = ground (arith, probe_expected s)

  -- So does a slot that still holds a message already seen.
  pub round_old :
      (s : Cursor) (sequence : ℕ) (bytes : List ℕ)
      → s.seen + 1 < word_mod
      → sequence ≤ s.seen
      → Holds c lane (expected_slot s) sequence bytes
      → round m c slots w safe lane origin s ≡ (ok false, s)
  unfolding round
  round_old s sequence bytes small old held = ground (
    arith,
    probe_expected s,
    seen_words-Holds c lane (expected_slot s) sequence bytes s.corrupt held,
  )
