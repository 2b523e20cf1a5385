-- ===== src/Ring/Regions.antt =====
-- The slots of a lane as regions of its destination's memory: no address wraps, and slots do not
-- overlap.
use mpi_rma.Base.{ℕ, ◌+◌, ◌-◌, ◌*◌, ◌%◌, ◌≤◌, ◌<◌, ◌^◌, ◌≡◌, ◌≢◌, sym, ◌⊎◌, inl, inr, arith}
use mpi_rma.Base.{List, length, slice, overwrite, slice-overwrite_self, slice-overwrite_disjoint}
use mpi_rma.Base.{word_mod}
use native.Mathlib.Decide.{dec_lt}
use native.Mathlib.Nat.{mod-lt, mod-eq_of_lt, mod-eq-sub-mod, mod-add-mod}
use mpi_rma.Ring.Types.{Lane}
use mpi_rma.Ring.Send.{slot_at}
use mpi_rma.Ring.Image.RoundTrip.{IsLane}

-- The lane lies in a memory of `total` bytes.
pub record IsPlaced (lane : Lane) (total : ℕ) : Type 0 where
  pub is_lane : IsLane lane
  pub inside : lane.offset + lane.depth * lane.slot ≤ total
  pub addressable : total < 2 ^ 63

abbrev pub region : Lane → ℕ → List ℕ → List ℕ
region lane p memory = slice (slot_at lane p) lane.slot memory

module _ {lane : Lane} {total : ℕ} (v : IsPlaced lane total) where
  open v use {is_lane, inside, addressable}

  slot_room : (p : ℕ) → p < lane.depth → p * lane.slot + lane.slot ≤ lane.depth * lane.slot
  slot_room p h = grind arith

  -- The address of a slot does not wrap.
  pub slot_at-eq : (p : ℕ) → p < lane.depth → slot_at lane p ≡ lane.offset + p * lane.slot
  slot_at-eq p h = omega (
    arith,
    slot_room p h,
    mod-eq_of_lt {n = p * lane.slot} {m = word_mod} (omega (arith, slot_room p h)),
    mod-eq_of_lt {n = lane.offset + p * lane.slot} {m = word_mod} (omega (arith, slot_room p h)),
  )

  -- A slot lies within the window.
  pub slot_inside : (p : ℕ) → p < lane.depth → slot_at lane p + lane.slot ≤ total
  slot_inside p h = omega (arith, slot_at-eq p h, slot_room p h)

  slots_apart :
      (p q : ℕ)
      → p < lane.depth
      → q < lane.depth
      → p ≢ q
      → (slot_at lane q + lane.slot ≤ slot_at lane p)
        ⊎ (slot_at lane p + lane.slot ≤ slot_at lane q)
  slots_apart p q hp hq ne = elim (dec_lt p q) [
    | yes lt ↦ inr (rw (slot_at-eq p hp, slot_at-eq q hq) (step p q lt))
    | no ge ↦ inl (rw (slot_at-eq p hp, slot_at-eq q hq) (step q p (omega arith)))
  ]
    where
      step :
          (a b : ℕ) → a < b → lane.offset + a * lane.slot + lane.slot ≤ lane.offset + b * lane.slot
      step a b lt = grind arith

  module _ (memory image : List ℕ) (whole : length memory ≡ total)
      (full : length image ≡ lane.slot) where
    pub region-overwrite_self :
        (p : ℕ) → p < lane.depth → region lane p (overwrite memory (slot_at lane p) image) ≡ image
    region-overwrite_self p h =
        slice-overwrite_self memory (slot_at lane p) lane.slot image (sym full)
          (omega (arith, slot_inside p h))

    -- A write to one slot leaves every other slot of the lane as it was.
    pub region-overwrite_ne :
        (p q : ℕ)
        → p < lane.depth
        → q < lane.depth
        → p ≢ q
        → region lane q (overwrite memory (slot_at lane p) image) ≡ region lane q memory
    region-overwrite_ne p q hp hq ne =
        slice-overwrite_disjoint memory (slot_at lane p) (slot_at lane q) lane.slot image
          (rw full (slots_apart p q hp hq ne))

-- Fewer than `depth` steps along a lane do not come back to the same slot.
pub position_ne : (i k depth : ℕ) → 0 < k → k < depth → (i + k) % depth ≢ i % depth
position_ne i k depth pos lt = elim (dec_lt (i % depth + k) depth) [
  | yes below ↦ omega (arith, mod-add-mod i depth k, mod-eq_of_lt below)
  | no above ↦ omega (
    arith,
    mod-add-mod i depth k,
    mod-lt i {m = depth} (omega arith),
    mod-eq-sub-mod {n = i % depth + k} {m = depth} (omega arith),
    mod-eq_of_lt {n = i % depth + k - depth} {m = depth}
        (omega (arith, mod-lt i {m = depth} (omega arith))),
  )
]
