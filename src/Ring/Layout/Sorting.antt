-- ===== src/Ring/Layout/Sorting.antt =====
-- A lane as the caller names it, `(source, destination, depth, capacity)`, and `sort_unstable` of
-- such tuples in their lexicographic order. Tuples that compare equal are equal, so every sort
-- gives the same list.
use mpi_rma.Base.{ℕ, Bool, true, false, List, [], ◌∷◌, ℤ, ltb, leb, ltb_ℤ, if◌then◌else◌}

pub record Spec : Type 0 where
  pub source : ℤ
  pub destination : ℤ
  pub depth : ℕ
  pub capacity : ℕ

-- `a <= b`.
unfoldable pub spec_le : Spec → Spec → Bool
spec_le a b =
    if ltb_ℤ a.source b.source
    then true
    else if ltb_ℤ b.source a.source
    then false
    else if ltb_ℤ a.destination b.destination
    then true
    else if ltb_ℤ b.destination a.destination
    then false
    else if ltb a.depth b.depth
    then true
    else if ltb b.depth a.depth
    then false
    else leb a.capacity b.capacity

unfoldable pub insert_spec : Spec → List Spec → List Spec
unfolding spec_le
insert_spec s [] = s ∷ []
insert_spec s (t ∷ rest) = if spec_le s t then s ∷ t ∷ rest else t ∷ insert_spec s rest

unfoldable pub sort_specs : List Spec → List Spec
unfolding insert_spec
sort_specs [] = []
sort_specs (s ∷ rest) = insert_spec s (sort_specs rest)

-- `sort_unstable` of ranks.
unfoldable pub insert_rank : ℤ → List ℤ → List ℤ
insert_rank r [] = r ∷ []
insert_rank r (q ∷ rest) = if ltb_ℤ q r then q ∷ insert_rank r rest else r ∷ q ∷ rest

unfoldable pub sort_ranks : List ℤ → List ℤ
unfolding insert_rank
sort_ranks [] = []
sort_ranks (r ∷ rest) = insert_rank r (sort_ranks rest)
