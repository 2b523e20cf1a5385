-- ===== src/Ring/Slots/Frames.antt =====
-- `sort_unstable_by_key` and `dedup_by_key` of `recover`, by sequence number.
use mpi_rma.Base.{ℕ, List, [], ◌∷◌, ltb, ◌==◌, true, false, if◌then◌else◌}
use mpi_rma.Ring.Types.{Frame}

unfoldable pub insert_frame : Frame → List Frame → List Frame
insert_frame f [] = f ∷ []
insert_frame f (g ∷ gs) = if ltb g.sequence f.sequence then g ∷ insert_frame f gs else f ∷ g ∷ gs

unfoldable pub sort_frames : List Frame → List Frame
unfolding insert_frame
sort_frames [] = []
sort_frames (f ∷ fs) = insert_frame f (sort_frames fs)

-- The first frame of each run of equal sequence numbers, after `last`.
unfoldable pub dedup_after : ℕ → List Frame → List Frame
dedup_after last [] = []
dedup_after last (f ∷ fs) = elim (f.sequence == last) [
  | true ↦ dedup_after last fs
  | false ↦ f ∷ dedup_after f.sequence fs
]

unfoldable pub dedup_frames : List Frame → List Frame
unfolding dedup_after
dedup_frames [] = []
dedup_frames (f ∷ fs) = f ∷ dedup_after f.sequence fs
