-- ===== src/Compare/PointToPoint/Answered.antt =====
-- The round trips of point-to-point messages end.
use mpi_rma.Base.{ℕ, zero, suc, ◌+◌, ◌*◌, ◌≤◌, ◌≡◌, refl, sym, arith, List, [], ◌∷◌, ◌⊎◌, inl, inr}
use mathlib.Core.Option.{some-injective}
use mathlib.Core.Path.{subst}
use mpi_rma.Compare.PointToPoint.{
  receive_tagged, data_parcel, outgoing, incoming, Hops, first_hops, hop_first, hop_second, HopTurn,
  first_turns, second_turns, HopTurns, no_hop, one_hop,
}

-- All that the two ranks go through in a round: nothing sent, there, received, and back.
data Trip : Type 0 where
  home : (left : ℕ) → Trip
  there : (left : ℕ) → Trip
  turned : (left : ℕ) → Trip
  back : (left : ℕ) → Trip

-- Both ranks have returned, and no message is left behind.
abbrev pub AllHome : Hops → Type 0
AllHome t = (t.hop0 ≡ outgoing 0) × (t.hop1 ≡ incoming 0) × (t.to_hop1 ≡ []) × (t.to_hop0 ≡ [])

module _ (buf : List ℕ) (iters : ℕ) where
  abbrev trip_state : Trip → Hops
  trip_state (home left) = first_hops left
  trip_state (there left) = record {
    hop0 = incoming (suc left);
    hop1 = incoming (suc left);
    to_hop1 = data_parcel buf ∷ [];
    to_hop0 = [];
  }
  trip_state (turned left) = record {
    hop0 = incoming (suc left);
    hop1 = outgoing (suc left);
    to_hop1 = [];
    to_hop0 = [];
  }
  trip_state (back left) = record {
    hop0 = incoming (suc left);
    hop1 = incoming left;
    to_hop1 = [];
    to_hop0 = data_parcel buf ∷ [];
  }

  -- The turns that were taken.
  abbrev Taken : ℕ → Trip → Type 0
  Taken k (home left) = k + 4 * left ≡ 4 * iters
  Taken k (there left) = k + 4 * left + 3 ≡ 4 * iters
  Taken k (turned left) = k + 4 * left + 2 ≡ 4 * iters
  Taken k (back left) = k + 4 * left + 1 ≡ 4 * iters

  At : ℕ → Hops → Type 0
  At k t = (p : Trip) × Taken k p × (trip_state p ≡ t)

  turn_At : (k : ℕ) (p : Trip) (t : Hops) → Taken k p → HopTurn buf (trip_state p) t → At (suc k) t
  unfolding At hop_first hop_second receive_tagged
  turn_At k (home zero) t e (first_turns m) = cc
  turn_At k (home zero) t e (second_turns m) = cc
  turn_At k (home (suc left)) t e (first_turns m) =
      (there left, omega (arith, e), some-injective _ t m)
  turn_At k (home (suc left)) t e (second_turns m) = cc
  turn_At k (there left) t e (first_turns m) = cc
  turn_At k (there left) t e (second_turns m) =
      (turned left, omega (arith, e), some-injective _ t m)
  turn_At k (turned left) t e (first_turns m) = cc
  turn_At k (turned left) t e (second_turns m) = (back left, omega (arith, e), some-injective _ t m)
  turn_At k (back left) t e (first_turns m) = (home left, omega (arith, e), some-injective _ t m)
  turn_At k (back zero) t e (second_turns m) = cc
  turn_At k (back (suc left)) t e (second_turns m) = cc

  turns_At : {k : ℕ} {t : Hops} → HopTurns buf (first_hops iters) k t → At k t
  unfolding At
  turns_At no_hop = (home iters, omega arith, refl)
  turns_At {k = suc k} {t = u} (one_hop {t = t} run step) =
      let (p, e, at) = turns_At run in turn_At k p u e (subst (λ x. HopTurn buf x u) (sym at) step)

  abbrev TripEnds : ℕ → Hops → Type 0
  TripEnds k t = (k ≤ 4 * iters) × (((k ≡ 4 * iters) × AllHome t) ⊎ ((u : Hops) × HopTurn buf t u))

  trip_ends : (k : ℕ) (p : Trip) → Taken k p → TripEnds k (trip_state p)
  unfolding hop_first hop_second receive_tagged
  trip_ends k (home zero) e = (omega (arith, e), inl (omega (arith, e), (refl, refl, refl, refl)))
  trip_ends k (home (suc left)) e = (omega (arith, e), inr (_, first_turns refl))
  trip_ends k (there left) e = (omega (arith, e), inr (_, second_turns refl))
  trip_ends k (turned left) e = (omega (arith, e), inr (_, second_turns refl))
  trip_ends k (back left) e = (omega (arith, e), inr (_, first_turns refl))

  -- In every interleaving of the two ranks, `iters` round trips of point-to-point messages take `4
  -- iters` turns, and until then one of the ranks can take its turn; in the end both ranks are out
  -- of their loops and no message is left behind.
  pub p2p_trips :
      {k : ℕ} {t : Hops}
      → HopTurns buf (first_hops iters) k t
      → (k ≤ 4 * iters) × (((k ≡ 4 * iters) × AllHome t) ⊎ ((u : Hops) × HopTurn buf t u))
  unfolding At
  p2p_trips {k} run = let (p, e, at) = turns_At run in subst (TripEnds k) at (trip_ends k p e)
