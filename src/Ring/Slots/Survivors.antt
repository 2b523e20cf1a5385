-- ===== src/Ring/Slots/Survivors.antt =====
-- `recover` hands out no sequence but those that stand in the slots of the lane.
use mpi_rma.Base.{
  ℕ, zero, suc, ◌+◌, ◌≤◌, ◌<◌, ◌≡◌, refl, arith, some, List, [], ◌∷◌, ◌++◌, All, All-append,
  get_elem?, as_usize, ltb, ◌==◌, ltb→lt, Bool-cases, Option-cases, inl, inr,
}
use mpi_rma.Error.{Result, ok, err, panic}
use mpi_rma.Action.{and_then}
use mpi_rma.Mpi.{Mpi}
use mpi_rma.Crc.{Crc}
use mpi_rma.Window.{Window, local}
use mpi_rma.Window.Bounds.{IsWindow}
use mpi_rma.Ring.Types.{Lane, Frame}
use mpi_rma.Ring.Image.{inspect, Verdict, vacant, broken, intact}
use mpi_rma.Ring.Regions.{IsPlaced, region}
use mpi_rma.Ring.Slots.{probe, salvage, gather, recover, kept, judged}
use mpi_rma.Ring.Slots.Frames.{insert_frame, sort_frames, dedup_after, dedup_frames}
use mpi_rma.Ring.Slots.Reads.{frame-region}

module _ (P : Frame → Type 0) where
  All-insert_frame : (f : Frame) (fs : List Frame) → P f → All P fs → All P (insert_frame f fs)
  unfolding insert_frame
  All-insert_frame f [] p ps = (p, tt)
  All-insert_frame f (g ∷ gs) p ps = elim (Bool-cases (ltb g.sequence f.sequence)) [
    | inl later ↦ rw later (ps.0, All-insert_frame f gs p ps.1)
    | inr first ↦ rw first (p, ps)
  ]

  All-sort_frames : (fs : List Frame) → All P fs → All P (sort_frames fs)
  unfolding sort_frames
  All-sort_frames [] ps = tt
  All-sort_frames (f ∷ fs) ps = All-insert_frame f (sort_frames fs) ps.0 (All-sort_frames fs ps.1)

  All-dedup_after : (n : ℕ) (fs : List Frame) → All P fs → All P (dedup_after n fs)
  unfolding dedup_after
  All-dedup_after n [] ps = tt
  All-dedup_after n (f ∷ fs) ps = elim (Bool-cases (f.sequence == n)) [
    | inl again ↦ rw (again, dedup_after) (All-dedup_after n fs ps.1)
    | inr other ↦ rw (other, dedup_after) (ps.0, All-dedup_after f.sequence fs ps.1)
  ]

  All-dedup_frames : (fs : List Frame) → All P fs → All P (dedup_frames fs)
  unfolding dedup_frames
  All-dedup_frames [] ps = tt
  All-dedup_frames (f ∷ fs) ps = (ps.0, All-dedup_after f.sequence fs ps.1)

  -- `P` of every frame of a result that is `Ok`.
  abbrev pub OkAll : Result (List Frame) × ℕ → Type 0
  OkAll (ok fs, s) = All P fs
  OkAll (err e, s) = Unit
  OkAll (panic, s) = Unit

  and_then-OkAll :
      {A : Type 0} (r : Result A × ℕ) (k : A → ℕ → Result (List Frame) × ℕ)
      → ((a : A) (s : ℕ) → OkAll (k a s))
      → OkAll (and_then r k)
  and_then-OkAll (ok a, s) k h = h a s
  and_then-OkAll (err e, s) k h = tt
  and_then-OkAll (panic, s) k h = tt

  append-OkAll :
      (r : Result (List Frame) × ℕ) (k : ℕ → Result (List Frame) × ℕ)
      → OkAll r
      → ((s : ℕ) → OkAll (k s))
      → OkAll (and_then r (λ first s. and_then (k s) (λ rest s'. (ok (first ++ rest), s'))))
  append-OkAll (ok fs, s) k p q = both (k s) (q s)
    where
      both :
          (u : Result (List Frame) × ℕ)
          → OkAll u
          → OkAll (and_then u (λ rest s'. (ok (fs ++ rest), s')))
      both (ok gs, s') h = All-append P fs gs p h
      both (err e, s') h = tt
      both (panic, s') h = tt
  append-OkAll (err e, s) k p q = tt
  append-OkAll (panic, s) k p q = tt

  clean-OkAll :
      (r : Result (List Frame) × ℕ)
      → OkAll r
      → OkAll (and_then r (λ frames s. (ok (dedup_frames (sort_frames frames)), s)))
  clean-OkAll (ok fs, s) h = All-dedup_frames (sort_frames fs) (All-sort_frames fs h)
  clean-OkAll (err e, s) h = tt
  clean-OkAll (panic, s) h = tt

module _ (m : Mpi) (c : Crc) {slots : Window} {w : m.World} (v : IsWindow m slots w) {total : ℕ}
    (own : get_elem? slots.lengths (as_usize slots.rank) ≡ some total) {lane : Lane}
    (placed : IsPlaced lane total) (seen : ℕ) where
  -- The frame stands intact in a slot of the lane, and is newer than `seen`.
  abbrev pub Survives : Frame → Type 0
  Survives f =
      (seen < f.sequence)
      × ((p : ℕ) × (p < lane.depth) × (inspect c lane (region lane p (local m slots w)) ≡ intact f))

  judged-OkAll :
      (p : ℕ) (h : p < lane.depth) (verdict : Verdict) (corrupt : ℕ)
      → inspect c lane (region lane p (local m slots w)) ≡ verdict
      → OkAll Survives (and_then (judged verdict corrupt) (λ got s. (ok (kept seen got), s)))
  judged-OkAll p h vacant corrupt e = tt
  judged-OkAll p h broken corrupt e = tt
  judged-OkAll p h (intact f) corrupt e = elim (Bool-cases (ltb seen f.sequence)) [
    | inl newer ↦ rw newer ((ltb→lt seen f.sequence newer, (p, h, e)), tt)
    | inr older ↦ rw older tt
  ]

  salvage-OkAll :
      (p : ℕ) (h : p < lane.depth) (corrupt : ℕ)
      → OkAll Survives (salvage m c slots w lane seen p corrupt)
  unfolding salvage
  salvage-OkAll p h corrupt = and_then-OkAll Survives (probe m slots w lane p corrupt) _ (λ found s.
      elim (Option-cases found) [
        | inl missing ↦ rw missing tt
        | inr (sequence, e) ↦ elim (Bool-cases (ltb seen sequence)) [
          | inl newer ↦
              rw (e, newer, frame-region m v own placed p h c s)
                (judged-OkAll p h (inspect c lane (region lane p (local m slots w))) s refl)
          | inr older ↦ rw (e, older) tt
        ]
      ])

  pub gather-OkAll :
      (left p corrupt : ℕ)
      → p + left ≤ lane.depth
      → OkAll Survives (gather m c slots w lane seen left p corrupt)
  unfolding gather
  gather-OkAll zero p corrupt h = tt
  gather-OkAll (suc left) p corrupt h =
      append-OkAll Survives (salvage m c slots w lane seen p corrupt) _
        (salvage-OkAll p (omega arith) corrupt) (λ s. gather-OkAll left (p + 1) s (omega arith))

  -- On a lane that lies in its window, whatever bytes the window holds, every frame that `recover`
  -- returns stands intact in a slot of the lane and is newer than the cursor.
  pub recover_intact : (corrupt : ℕ) → OkAll Survives (recover m c slots w lane seen corrupt)
  unfolding recover
  recover_intact corrupt =
      clean-OkAll Survives (gather m c slots w lane seen lane.depth 0 corrupt)
        (gather-OkAll lane.depth 0 corrupt (omega arith))
