-- ===== src/Ring/Slots.antt =====
-- src/ring.rs: `probe`, `frame` and `recover`, which read the slots of a lane in this rank's own
-- window. They call no MPI: the world is read and not changed. The state is the counter `corrupt`.
pub mod Frames
pub mod Reads
pub mod Torn
pub mod Survivors
pub mod Rising
use mpi_rma.Base.{
  ℕ, zero, suc, ◌+◌, not, Option, none, some, List, [], ◌∷◌, ◌++◌, ltb, ◌==◌, if◌then◌else◌,
}
use mpi_rma.Base.{from_le, not_word, add_word, sub_word}
use mpi_rma.Error.{ok}
use mpi_rma.Action.{Action, and_then, pure, lift, ◌>>=◌}
use mpi_rma.Mpi.{Mpi}
use mpi_rma.Crc.{Crc}
use mpi_rma.Window
use mpi_rma.Window.{Window}
use mpi_rma.Ring.Types.{word, Lane, Frame}
use mpi_rma.Ring.Image.{Verdict, vacant, broken, intact, inspect}
use mpi_rma.Ring.Send.{slot_at}
use Frames.{sort_frames, dedup_frames}

-- The frame that one position of `recover` keeps.
abbrev pub kept : ℕ → Option Frame → List Frame
kept seen none = []
kept seen (some f) = if ltb seen f.sequence then f ∷ [] else []

-- The two words of `probe`: the state is the counter `corrupt`.
abbrev pub seen_words : List ℕ → List ℕ → Action ℕ (Option ℕ)
seen_words head tail corrupt =
    let sequence = from_le head in
    if sequence == 0
    then (ok none, corrupt)
    else if not (from_le tail == not_word sequence)
    then (ok none, add_word corrupt 1)
    else (ok (some sequence), corrupt)

abbrev pub judged : Verdict → Action ℕ (Option Frame)
judged vacant corrupt = (ok none, corrupt)
judged broken corrupt = (ok none, add_word corrupt 1)
judged (intact f) corrupt = (ok (some f), corrupt)

module _ (m : Mpi) where
  open m use {World}

  unfoldable pub probe : Window → World → Lane → ℕ → Action ℕ (Option ℕ)
  probe slots w lane position = do
    let offset = slot_at lane position
    head ← lift (Window.read_local_volatile m slots offset word w)
    tail ←
        lift (Window.read_local_volatile m slots (sub_word (add_word offset lane.slot) word) word w)
    seen_words head tail

  module _ (c : Crc) where
    unfoldable pub frame : Window → World → Lane → ℕ → Action ℕ (Option Frame)
    unfolding inspect
    frame slots w lane position = do
      image ← lift (Window.read_local m slots (slot_at lane position) lane.slot w)
      judged (inspect c lane image)

    -- One position of `recover`.
    unfoldable pub salvage : Window → World → Lane → ℕ → ℕ → Action ℕ (List Frame)
    unfolding probe frame
    salvage slots w lane seen position = do
      found ← probe slots w lane position
      elim found [
        | none ↦ pure []
        | some sequence ↦
            if ltb seen sequence
            then (do got ← frame slots w lane position; pure (kept seen got))
            else pure []
      ]

    -- The loop of `recover` over the `left` positions from `position` on.
    unfoldable pub gather : Window → World → Lane → (seen left position : ℕ) → Action ℕ (List Frame)
    gather slots w lane seen zero position corrupt = (ok [], corrupt)
    gather slots w lane seen (suc left) position corrupt =
        and_then (salvage slots w lane seen position corrupt) (λ first corrupt'.
          and_then (gather slots w lane seen left (position + 1) corrupt')
            (λ rest corrupt''. (ok (first ++ rest), corrupt'')))

    unfoldable pub recover : Window → World → Lane → (seen : ℕ) → Action ℕ (List Frame)
    recover slots w lane seen corrupt =
        and_then (gather slots w lane seen lane.depth 0 corrupt)
          (λ frames corrupt'. (ok (dedup_frames (sort_frames frames)), corrupt'))
