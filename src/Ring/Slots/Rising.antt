-- ===== src/Ring/Slots/Rising.antt =====
-- The order of what `recover` returns.
use mpi_rma.Base.{
  ℕ, ◌+◌, ◌≤◌, ◌<◌, ◌≡◌, arith, List, [], ◌∷◌, All, ltb, ◌==◌, ==_iff, Bool-cases, inl, inr, ltb→lt,
  ltb→le, get_elem?, as_usize, some,
}
use mathlib.Core.Path.{subst}
use mpi_rma.Error.{Result, ok, err, panic}
use mpi_rma.Action.{and_then}
use mpi_rma.Mpi.{Mpi}
use mpi_rma.Crc.{Crc}
use mpi_rma.Window.{Window}
use mpi_rma.Window.Bounds.{IsWindow}
use mpi_rma.Ring.Types.{Lane, Frame}
use mpi_rma.Ring.Regions.{IsPlaced}
use mpi_rma.Ring.Slots.{gather, recover}
use mpi_rma.Ring.Slots.Survivors.{OkAll, Survives, gather-OkAll}
use mpi_rma.Ring.Slots.Frames.{insert_frame, sort_frames, dedup_after, dedup_frames}

-- Sequence numbers that do not fall, from `n` on.
abbrev IsSorted : ℕ → List Frame → Type 0
IsSorted n [] = Unit {0}
IsSorted n (f ∷ fs) = (n ≤ f.sequence) × IsSorted f.sequence fs

-- Sequence numbers that rise, after `n`.
abbrev pub IsRising : ℕ → List Frame → Type 0
IsRising n [] = Unit {0}
IsRising n (f ∷ fs) = (n < f.sequence) × IsRising f.sequence fs

insert_frame-IsSorted :
    (n : ℕ) (f : Frame) (fs : List Frame)
    → n ≤ f.sequence
    → IsSorted n fs
    → IsSorted n (insert_frame f fs)
unfolding insert_frame
insert_frame-IsSorted n f [] h v = (h, tt)
insert_frame-IsSorted n f (g ∷ gs) h v = elim (Bool-cases (ltb g.sequence f.sequence)) [
  | inl later ↦
      let below = ltb→lt g.sequence f.sequence later in
      rw later (v.0, insert_frame-IsSorted g.sequence f gs (omega arith) v.1)
  | inr first ↦ rw first (h, (ltb→le g.sequence f.sequence first, v.1))
]

sort_frames-IsSorted :
    (n : ℕ) (fs : List Frame) → All (λ f. n ≤ f.sequence) fs → IsSorted n (sort_frames fs)
unfolding sort_frames
sort_frames-IsSorted n [] h = tt
sort_frames-IsSorted n (f ∷ fs) h =
    insert_frame-IsSorted n f (sort_frames fs) h.0 (sort_frames-IsSorted n fs h.1)

dedup_after-IsRising : (n : ℕ) (fs : List Frame) → IsSorted n fs → IsRising n (dedup_after n fs)
unfolding dedup_after
dedup_after-IsRising n [] v = tt
dedup_after-IsRising n (f ∷ fs) v = elim (Bool-cases (f.sequence == n)) [
  | inl again ↦
      rw (again, dedup_after)
        (dedup_after-IsRising n fs (subst (λ k. IsSorted k fs) ((==_iff f.sequence n).0 again) v.1))
  | inr other ↦
      let ne = ==_iff f.sequence n in
      rw (other, dedup_after) (ground (arith, v.0, other), dedup_after-IsRising f.sequence fs v.1)
]

dedup_frames-IsRising :
    (n : ℕ) (fs : List Frame) → IsSorted (n + 1) fs → IsRising n (dedup_frames fs)
unfolding dedup_frames
dedup_frames-IsRising n [] v = tt
dedup_frames-IsRising n (f ∷ fs) v = (omega (arith, v.0), dedup_after-IsRising f.sequence fs v.1)

abbrev OkRising : ℕ → Result (List Frame) × ℕ → Type 0
OkRising n (ok fs, k) = IsRising n fs
OkRising n (err e, k) = Unit
OkRising n (panic, k) = Unit

module _ (m : Mpi) (c : Crc) {slots : Window} {w : m.World} (v : IsWindow m slots w) {total : ℕ}
    (own : get_elem? slots.lengths (as_usize slots.rank) ≡ some total) {lane : Lane}
    (placed : IsPlaced lane total) (seen : ℕ) where
  above :
      (fs : List Frame)
      → All (Survives m c v own placed seen) fs
      → All (λ f. seen + 1 ≤ f.sequence) fs
  above [] h = tt
  above (f ∷ fs) h = (omega (arith, h.0.0), above fs h.1)

  clean-OkRising :
      (r : Result (List Frame) × ℕ)
      → OkAll (Survives m c v own placed seen) r
      → OkRising seen (and_then r (λ frames s. (ok (dedup_frames (sort_frames frames)), s)))
  clean-OkRising (ok fs, s) h =
      dedup_frames-IsRising seen (sort_frames fs) (sort_frames-IsSorted (seen + 1) fs (above fs h))
  clean-OkRising (err e, s) h = tt
  clean-OkRising (panic, s) h = tt

  -- The recovered frames have rising sequence numbers, all after the cursor.
  pub recover-IsRising :
      (corrupt : ℕ) (fs : List Frame) (k : ℕ)
      → recover m c slots w lane seen corrupt ≡ (ok fs, k)
      → IsRising seen fs
  unfolding recover
  recover-IsRising corrupt fs k e = subst (OkRising seen) e (
      clean-OkRising (gather m c slots w lane seen lane.depth 0 corrupt)
        (gather-OkAll m c v own placed seen lane.depth 0 corrupt (omega arith)))
