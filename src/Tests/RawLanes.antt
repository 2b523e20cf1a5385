-- ===== src/Tests/RawLanes.antt =====
-- A raw lane whose first slot was overwritten: message 3 stands where message 1 was.
use mpi_rma.Base.{
  ℕ, zero, suc, ◌+◌, ◌-◌, ◌%◌, ◌≤◌, ◌<◌, ◌^◌, ◌≡◌, refl, arith, some, false, List, [], ◌∷◌, pos,
}
use mpi_rma.Base.{
  length, length-overwrite, get_elem?, replicate, overwrite, slice, from_le, le_bytes, word_mod,
}
use mpi_rma.Mpi.Model.{Cells, instant}
use mpi_rma.Crc.{polynomial}
use mpi_rma.Window.{local, validate, read_local, read_local_volatile, read_each}
use mpi_rma.Window.Bounds.{IsWindow}
use mpi_rma.Base.{◌++◌}
use mpi_rma.Ring.Types.{word, Message}
use mpi_rma.Ring.Poll.Order.{Follows, drain_order}
use mpi_rma.Ring.Image.{build, resize, checksum, inspect}
use mpi_rma.Ring.Regions.{region}
use mpi_rma.Ring.Slots.{probe, frame, salvage, gather, recover}
use mpi_rma.Ring.Slots.Frames.{insert_frame, sort_frames, dedup_after, dedup_frames}
use mpi_rma.Ring.Slots.Survivors.{OkAll, Survives, recover_intact}
use mpi_rma.Ring.Poll.{Cursor, absorb, round, lapped, drain}
use mpi_rma.Ring.Poll.Accounting.{drain_accounts}
use mpi_rma.Tests.Setup.{lane, lane-IsPlaced, slots_of}

abbrev image : List ℕ
image = build polynomial lane [] 3 (7 ∷ 8 ∷ [])

abbrev written : ℕ → ℕ → List ℕ
written zero (suc zero) = overwrite (replicate 80 0) 0 image
written win rank = []

abbrev overrun : Cells
overrun = record { next = 2; cell = written }

overrun-IsWindow : IsWindow instant (slots_of 1) overrun
overrun-IsWindow = record { size = refl; mine = refl; stored = stored; small = small }
  where
    stored : (d n : ℕ) → get_elem? (0 ∷ 80 ∷ []) d ≡ some n → length (written 0 d) ≡ n
    stored zero n e = ground arith
    stored (suc zero) n e = ground (arith, length-overwrite (replicate 80 0) 0 image)
    stored (suc (suc d)) n e = cc

    small : (d n : ℕ) → get_elem? (0 ∷ 80 ∷ []) d ≡ some n → n < 2 ^ 63
    small zero n e = ground arith
    small (suc zero) n e = ground arith
    small (suc (suc d)) n e = cc

abbrev cursor : Cursor
cursor = record { seen = 0; lost = 0; corrupt = 0; messages = [] }

-- The poll delivers message 3 and counts 1 and 2 as lost.
overrun_polled :
    (drain instant polynomial (slots_of 1) overrun false lane (pos 0) 2 cursor).1 ≡ record {
      seen = 3;
      lost = 2;
      corrupt = 0;
      messages = record { origin = pos 0; sequence = 3; bytes = 7 ∷ 8 ∷ [] } ∷ [];
    }
unfolding drain round lapped absorb recover gather salvage probe frame inspect checksum build resize
    le_bytes from_le validate read_local read_local_volatile read_each sort_frames insert_frame
    dedup_frames dedup_after
overrun_polled = refl

first_head : from_le (slice 0 word (region lane 0 (local instant (slots_of 1) overrun))) ≡ 3
unfolding build resize le_bytes from_le
first_head = refl

second_head : from_le (slice 0 word (region lane 1 (local instant (slots_of 1) overrun))) ≡ 0
unfolding build resize le_bytes from_le
second_head = refl

heads :
    (p : ℕ)
    → p < 2
    → from_le (slice 0 word (region lane p (local instant (slots_of 1) overrun))) + 1 < word_mod
heads zero h = omega (arith, first_head)
heads (suc zero) h = omega (arith, second_head)
heads (suc (suc p)) h = absurd (omega arith)

drain_accounts_example :
    let t = (drain instant polynomial (slots_of 1) overrun false lane (pos 0) 2 cursor).1 in
    (0 ≤ t.seen)
    × (0 ≤ length t.messages)
    × ((t.lost + (length t.messages - 0)) % word_mod ≡ (0 + (t.seen - 0)) % word_mod)
drain_accounts_example =
    drain_accounts instant polynomial overrun-IsWindow refl lane-IsPlaced false (pos 0) heads 2
      cursor

recover_intact_example :
    OkAll
      (Survives instant polynomial overrun-IsWindow refl lane-IsPlaced 0)
      (recover instant polynomial (slots_of 1) overrun lane 0 0)
recover_intact_example = recover_intact instant polynomial overrun-IsWindow refl lane-IsPlaced 0 0

drain_order_example :
    let t = (drain instant polynomial (slots_of 1) overrun false lane (pos 0) 2 cursor).1 in
    (new : List Message) × (t.messages ≡ [] ++ new) × Follows false (pos 0) 0 new t.seen
drain_order_example =
    drain_order instant polynomial overrun-IsWindow refl lane-IsPlaced false (pos 0) 2 cursor
