-- ===== src/Soak/Lanes.antt =====
-- The lanes of the stress test: all to all.
use mpi_rma.Base.{
  ℕ, zero, suc, ◌+◌, ◌≡◌, arith, List, [], ◌∷◌, ◌++◌, pos, eqb_ℤ, ltb, ◌==◌, ◌&&◌, not,
  if◌then◌else◌,
}
use mpi_rma.Ring.Layout.Sorting.{Spec}

module _ (depth payload : ℕ) where
  -- The loop over the destinations `d`, of which `left` are left.
  unfoldable pub destinations : (source left d : ℕ) → List Spec
  destinations source zero d = []
  destinations source (suc left) d =
      let rest = destinations source left (d + 1) in
      if source == d
      then rest
      else record { source = pos source; destination = pos d; depth = depth; capacity = payload }
        ∷ rest

  unfoldable pub sources : (size left s : ℕ) → List Spec
  unfolding destinations
  sources size zero s = []
  sources size (suc left) s = destinations s size 0 ++ sources size left (s + 1)

  unfoldable pub all_to_all : (size : ℕ) → List Spec
  unfolding sources
  all_to_all size = sources size size 0

-- The lanes from `a` to `b`.
unfoldable pub count_lanes : (a b : ℕ) → List Spec → ℕ
count_lanes a b [] = 0
count_lanes a b (s ∷ rest) =
    let n = count_lanes a b rest in
    if eqb_ℤ s.source (pos a) && eqb_ℤ s.destination (pos b) then n + 1 else n

count_lanes-append :
    (a b : ℕ) (xs ys : List Spec)
    → count_lanes a b (xs ++ ys) ≡ count_lanes a b xs + count_lanes a b ys
unfolding count_lanes
count_lanes-append a b [] ys = omega arith
count_lanes-append a b (x ∷ xs) ys = let h = count_lanes-append a b xs ys in ground (arith, h)

module _ (depth payload a b : ℕ) where
  count-destinations :
      (source left d : ℕ)
      → count_lanes a b (destinations depth payload source left d)
        ≡ (if a == source && not (source == b) && not (ltb b d) && ltb b (d + left) then 1 else 0)
  unfolding count_lanes destinations
  count-destinations source zero d = ground arith
  count-destinations source (suc left) d =
      let h = count-destinations source left (d + 1) in ground (arith, h)

  count-sources :
      (size left s : ℕ)
      → count_lanes a b (sources depth payload size left s)
        ≡ (if not (ltb a s) && ltb a (s + left) && not (a == b) && ltb b size then 1 else 0)
  unfolding count_lanes sources
  count-sources size zero s = ground arith
  count-sources size (suc left) s =
      let h = count-sources size left (s + 1) in
      let g = count-destinations s size 0 in
      let j =
        count_lanes-append a b (destinations depth payload s size 0)
          (sources depth payload size left (s + 1)) in
      ground (arith, h, g, j)

  -- Every ordered pair of distinct ranks has one lane, and there are no others.
  pub all_to_all_pairs :
      (size : ℕ)
      → count_lanes a b (all_to_all depth payload size)
        ≡ (if ltb a size && ltb b size && not (a == b) then 1 else 0)
  unfolding all_to_all
  all_to_all_pairs size = let h = count-sources size size 0 in ground (arith, h)
