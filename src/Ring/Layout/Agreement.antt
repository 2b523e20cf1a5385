-- ===== src/Ring/Layout/Agreement.antt =====
-- Every rank computes the same layout from the same list.
use mpi_rma.Base.{ℕ, ◌<◌, ◌≡◌, refl, sym, ◌∙◌, ap, arith, none, some, List, [], ◌∷◌, inl, inr}
use mpi_rma.Base.{
  length, get_elem?, set, as_usize, length-set, length-replicate, get_elem?-replicate,
  get_elem?-set, ap₂, not,
}
use mpi_rma.Error.{Result, ok, err, panic, guard, Result-cases, ring}
use mpi_rma.Ring.Layout.Sorting.{Spec}
use mpi_rma.Ring.Layout.{
  Tables, Measure, measure, record_lane, place, place_all, empty_tables, layout, has_repeat,
  check_specs,
}

-- The tables of rank `a` and of rank `b` in step: the same lengths, and one lane from `a` to `b`.
pub record Agree (ranks a b : ℕ) (t u : Tables) : Type 0 where
  pub lengths : t.lengths ≡ u.lengths
  pub ack_lengths : t.ack_lengths ≡ u.ack_lengths
  pub to_size : length t.to ≡ ranks
  pub from_size : length u.from ≡ ranks
  pub lane : get_elem? t.to b ≡ get_elem? u.from a

-- Two ranks both succeed, in step, or fail alike.
abbrev pub InStep : (ranks a b : ℕ) → Result Tables → Result Tables → Type 0
InStep ranks a b (ok t) (ok u) = Agree ranks a b t u
InStep ranks a b (err e) (err e') = e ≡ e'
InStep ranks a b panic panic = Unit
InStep ranks a b _ _ = ⊥

module _ (ranks a b : ℕ) (ha : a < ranks) (hb : b < ranks) where
  record_lane-Agree :
      (s : Spec) (t u : Tables) (e : Measure)
      → Agree ranks a b t u
      → Agree ranks a b (record_lane a s t e) (record_lane b s u e)
  record_lane-Agree s t u e g = record {
    lengths = ap (λ l. set l (as_usize s.destination) e.total) g.lengths;
    ack_lengths = ap (λ l. set l (as_usize s.source) e.next_ack) g.ack_lengths;
    to_size = ground (arith, g.to_size, length-set t.to (as_usize s.destination) (some e.lane));
    from_size = ground (arith, g.from_size, length-set u.from (as_usize s.source) (some e.lane));
    lane = ground (
      arith,
      g.lane,
      g.to_size,
      g.from_size,
      get_elem?-set t.to (as_usize s.destination) b (some e.lane),
      get_elem?-set u.from (as_usize s.source) a (some e.lane),
    );
  }

  place_all-InStep :
      (config : List Spec) (t u : Tables)
      → Agree ranks a b t u
      → InStep ranks a b (place_all a config t) (place_all b config u)
  unfolding place_all place
  place_all-InStep [] t u g = g
  place_all-InStep (s ∷ rest) t u g =
      let same : measure s u.lengths u.ack_lengths ≡ measure s t.lengths t.ack_lengths =
        ap₂ (measure s) (sym g.lengths) (sym g.ack_lengths) in
      elim (Result-cases (measure s t.lengths t.ack_lengths)) [
        | inl (e, eq) ↦
            rw (same, eq)
              (place_all-InStep rest (record_lane a s t e) (record_lane b s u e)
                (record_lane-Agree s t u e g))
        | inr (inl (e, eq)) ↦ rw (same, eq) refl
        | inr (inr eq) ↦ rw (same, eq) tt
      ]

  start-Agree : Agree ranks a b (empty_tables ranks) (empty_tables ranks)
  unfolding empty_tables
  start-Agree = record {
    lengths = refl;
    ack_lengths = refl;
    to_size = length-replicate ranks none;
    from_size = length-replicate ranks none;
    lane = get_elem?-replicate ranks b none hb ∙ sym (get_elem?-replicate ranks a none ha);
  }

  -- Any two ranks of the communicator accept one list alike, or refuse it with one error. If they
  -- accept it, they know the same window lengths, and the sender's lane to the receiver (offset,
  -- depth, capacity, slot size and counter index) is the receiver's lane from the sender.
  pub layout-InStep :
      (config : List Spec) → InStep ranks a b (layout ranks a config) (layout ranks b config)
  unfolding layout
  layout-InStep config =
      elim (Result-cases (guard (not (has_repeat config)) (ring "a lane is configured twice"))) [
        | inl (u, eq) ↦ elim (Result-cases (check_specs ranks config)) [
          | inl (v, eq') ↦
              rw (eq, eq')
                (place_all-InStep config (empty_tables ranks) (empty_tables ranks) start-Agree)
          | inr (inl (e, eq')) ↦ rw (eq, eq') refl
          | inr (inr eq') ↦ rw (eq, eq') tt
        ]
        | inr (inl (e, eq)) ↦ rw eq refl
        | inr (inr eq) ↦ rw eq tt
      ]
