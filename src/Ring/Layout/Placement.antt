-- ===== src/Ring/Layout/Placement.antt =====
-- Where the layout puts the lanes of one rank.
use mpi_rma.Base.{
  ℕ, ◌+◌, ◌*◌, ◌≤◌, ◌<◌, ◌≡◌, ◌≢◌, refl, sym, ◌∙◌, ap, arith, Option, none, some, List, [], ◌∷◌,
  ◌⊎◌, inl, inr,
}
use mpi_rma.Base.{
  length, get_elem?, set, replicate, ◌==◌, Bool, ==_iff, true, false, not, if◌then◌else◌,
}
use mpi_rma.Base.{length-set, get_elem?-set, get_elem?-lt, length-replicate, get_elem?-replicate}
use native.Mathlib.Decide.{ℕ_discrete}
use mpi_rma.Error.{ok, guard, Result-cases, ring}
use mpi_rma.Ring.Types.{Lane}
use mpi_rma.Ring.Image.RoundTrip.{IsLane}
use mpi_rma.Ring.Layout.Sorting.{Spec}
use mpi_rma.Ring.Layout.{
  Tables, Measure, measure, record_lane, place, place_all, empty_tables, layout, has_repeat,
  check_specs,
}
use mpi_rma.Ring.Layout.Measured.{target_of, source_of, Measured, measure_inv}

-- One lane's bytes end before the other's begin.
abbrev pub Apart : Lane → Lane → Type 0
Apart l k = (l.offset + l.depth * l.slot ≤ k.offset) ⊎ (k.offset + k.depth * k.slot ≤ l.offset)

-- The tables of rank `me`: its window reaches past every incoming lane, and these do not overlap;
-- every outgoing lane has a counter of its own among those counted.
pub record LaidOut (me : ℕ) (t : Tables) : Type 0 where
  pub total : ℕ
  pub count : ℕ
  pub reaches : get_elem? t.lengths me ≡ some total
  pub counts : get_elem? t.ack_lengths me ≡ some count
  pub inside :
      (i : ℕ) (l : Lane)
      → get_elem? t.from i ≡ some (some l)
      → IsLane l × (l.offset + l.depth * l.slot ≤ total)
  pub apart :
      (i j : ℕ) (l k : Lane)
      → get_elem? t.from i ≡ some (some l)
      → get_elem? t.from j ≡ some (some k)
      → i ≢ j
      → Apart l k
  pub numbered : (i : ℕ) (l : Lane) → get_elem? t.to i ≡ some (some l) → l.ack < count
  pub distinct :
      (i j : ℕ) (l k : Lane)
      → get_elem? t.to i ≡ some (some l)
      → get_elem? t.to j ≡ some (some k)
      → i ≢ j
      → l.ack ≢ k.ack

-- An entry of a table after a round is the new lane, or was there before.
entry-cases :
    (mine : Bool) (xs : List (Option Lane)) (at : ℕ) (v : Lane) (i : ℕ) (l : Lane)
    → get_elem? (if mine then set xs at (some v) else xs) i ≡ some (some l)
    → ((mine ≡ true) × (i ≡ at) × (l ≡ v)) ⊎ (get_elem? xs i ≡ some (some l))
entry-cases false xs at v i l h = inr h
entry-cases true xs at v i l h =
    let room : i < length xs =
      omega (arith, get_elem?-lt (set xs at (some v)) i (some l) h, length-set xs at (some v)) in
    elim (ℕ_discrete i at) [
      | yes same ↦ inl (refl, same, ground (arith, same, h, get_elem?-set xs at i (some v) room))
      | no other ↦ inr (ground (arith, other, h, get_elem?-set xs at i (some v) room))
    ]

module _ (me : ℕ) (s : Spec) (t : Tables) (e : Measure) (deep : 0 < s.depth)
    (m : Measured s t.lengths t.ack_lengths e) (v : LaidOut me t) where
  new_total : ℕ
  new_total = if target_of s == me then e.total else v.total

  new_count : ℕ
  new_count = if source_of s == me then e.next_ack else v.count

  lane-IsLane : IsLane e.lane
  lane-IsLane = record {
    slot_size = ground (arith, m.slot, m.capacity);
    slot_small = omega (arith, m.small);
    deep = omega (arith, m.depth, deep);
  }

  -- The new lane ends at the new total.
  lane_end : e.total ≡ e.lane.offset + e.lane.depth * e.lane.slot
  lane_end = m.total ∙ ap (λ d. e.lane.offset + d * e.lane.slot) (sym m.depth)

  -- It starts where the window of `me` ended, and its counter is the next of `me`.
  lane_start : (target_of s == me) ≡ true → e.lane.offset ≡ v.total
  lane_start mine = ground (arith, m.at, v.reaches, (==_iff (target_of s) me).0 mine)

  lane_counter : (source_of s == me) ≡ true → e.lane.ack ≡ v.count
  lane_counter mine = ground (arith, m.counter, v.counts, (==_iff (source_of s) me).0 mine)

  total_grows : v.total ≤ new_total
  unfolding new_total
  total_grows = ground (arith, lane_start, lane_end)

  count_grows : v.count ≤ new_count
  unfolding new_count
  count_grows = ground (arith, lane_counter, m.next)

  new_end : (target_of s == me) ≡ true → e.lane.offset + e.lane.depth * e.lane.slot ≤ new_total
  unfolding new_total
  new_end mine = ground (arith, lane_end)

  new_number : (source_of s == me) ≡ true → e.lane.ack < new_count
  unfolding new_count
  new_number mine = ground (arith, m.next)

  reaches' : get_elem? (record_lane me s t e).lengths me ≡ some new_total
  unfolding new_total
  reaches' = ground (
    arith,
    v.reaches,
    get_elem?-set t.lengths (target_of s) me e.total (get_elem?-lt t.lengths me v.total v.reaches),
  )

  counts' : get_elem? (record_lane me s t e).ack_lengths me ≡ some new_count
  unfolding new_count
  counts' = ground (
    arith,
    v.counts,
    get_elem?-set t.ack_lengths (source_of s) me e.next_ack
        (get_elem?-lt t.ack_lengths me v.count v.counts),
  )

  inside' :
      (i : ℕ) (l : Lane)
      → get_elem? (record_lane me s t e).from i ≡ some (some l)
      → IsLane l × (l.offset + l.depth * l.slot ≤ new_total)
  inside' i l h = elim (entry-cases (target_of s == me) t.from (source_of s) e.lane i l h) [
    | inl (mine, here, new) ↦ rw new (lane-IsLane, new_end mine)
    | inr old ↦ let (whole, fits) = v.inside i l old in (whole, omega (arith, fits, total_grows))
  ]

  apart' :
      (i j : ℕ) (l k : Lane)
      → get_elem? (record_lane me s t e).from i ≡ some (some l)
      → get_elem? (record_lane me s t e).from j ≡ some (some k)
      → i ≢ j
      → Apart l k
  apart' i j l k h g ne = elim (entry-cases (target_of s == me) t.from (source_of s) e.lane i l h) [
    | inl (mine, here, new) ↦
        elim (entry-cases (target_of s == me) t.from (source_of s) e.lane j k g) [
          | inl (mine', there, new') ↦ absurd (ne (here ∙ sym there))
          | inr old' ↦ rw new (inr (omega (arith, (v.inside j k old').1, lane_start mine)))
        ]
    | inr old ↦ elim (entry-cases (target_of s == me) t.from (source_of s) e.lane j k g) [
      | inl (mine', there, new') ↦
          rw new' (inl (omega (arith, (v.inside i l old).1, lane_start mine')))
      | inr old' ↦ v.apart i j l k old old' ne
    ]
  ]

  numbered' :
      (i : ℕ) (l : Lane) → get_elem? (record_lane me s t e).to i ≡ some (some l) → l.ack < new_count
  numbered' i l h = elim (entry-cases (source_of s == me) t.to (target_of s) e.lane i l h) [
    | inl (mine, here, new) ↦ rw new (new_number mine)
    | inr old ↦ omega (arith, v.numbered i l old, count_grows)
  ]

  distinct' :
      (i j : ℕ) (l k : Lane)
      → get_elem? (record_lane me s t e).to i ≡ some (some l)
      → get_elem? (record_lane me s t e).to j ≡ some (some k)
      → i ≢ j
      → l.ack ≢ k.ack
  distinct' i j l k h g ne same =
      elim (entry-cases (source_of s == me) t.to (target_of s) e.lane i l h) [
        | inl (mine, here, new) ↦
            elim (entry-cases (source_of s == me) t.to (target_of s) e.lane j k g) [
              | inl (mine', there, new') ↦ ne (here ∙ sym there)
              | inr old' ↦
                  omega (arith, v.numbered j k old', lane_counter mine, ap (λ x. x.ack) new, same)
            ]
        | inr old ↦ elim (entry-cases (source_of s == me) t.to (target_of s) e.lane j k g) [
          | inl (mine', there, new') ↦
              omega (arith, v.numbered i l old, lane_counter mine', ap (λ x. x.ack) new', same)
          | inr old' ↦ v.distinct i j l k old old' ne same
        ]
      ]

  -- A round keeps the tables of a rank laid out.
  record_lane-LaidOut : LaidOut me (record_lane me s t e)
  record_lane-LaidOut = record {
    total = new_total;
    count = new_count;
    reaches = reaches';
    counts = counts';
    inside = inside';
    apart = apart';
    numbered = numbered';
    distinct = distinct';
  }

specs_rest :
    (ranks : ℕ) (s : Spec) (rest : List Spec)
    → check_specs ranks (s ∷ rest) ≡ ok tt
    → check_specs ranks rest ≡ ok tt
unfolding check_specs
specs_rest ranks s rest h = ground (arith, h)

spec_deep :
    (ranks : ℕ) (s : Spec) (rest : List Spec) → check_specs ranks (s ∷ rest) ≡ ok tt → 0 < s.depth
unfolding check_specs
spec_deep ranks s rest h = ground (arith, h)

place_all-LaidOut :
    (me ranks : ℕ) (config : List Spec) (t u : Tables)
    → check_specs ranks config ≡ ok tt
    → LaidOut me t
    → place_all me config t ≡ ok u
    → LaidOut me u
unfolding place_all place check_specs
place_all-LaidOut me ranks [] t u checked v h = let same : t ≡ u = cc in rw (← same) v
place_all-LaidOut me ranks (s ∷ rest) t u checked v h =
    elim (Result-cases (measure s t.lengths t.ack_lengths)) [
      | inl (e, eq) ↦
          place_all-LaidOut me ranks rest (record_lane me s t e) u (specs_rest ranks s rest checked)
            (record_lane-LaidOut me s t e (spec_deep ranks s rest checked)
              (measure_inv s t.lengths t.ack_lengths e eq) v)
            (rw eq at h)
      | inr (inl (x, eq)) ↦ absurd (ground (arith, eq))
      | inr (inr eq) ↦ absurd (ground (arith, eq))
    ]

start-LaidOut : (ranks me : ℕ) → me < ranks → LaidOut me (empty_tables ranks)
unfolding empty_tables
start-LaidOut ranks me h = record {
  total = 0;
  count = 0;
  reaches = get_elem?-replicate ranks me 0 h;
  counts = get_elem?-replicate ranks me 0 h;
  inside = λ i l e. absurd (no_lane i l e);
  apart = λ i j l k e e' ne. absurd (no_lane i l e);
  numbered = λ i l e. absurd (no_lane i l e);
  distinct = λ i j l k e e' ne. absurd (no_lane i l e);
}
  where
    no_lane : (i : ℕ) (l : Lane) → get_elem? (replicate ranks none) i ≡ some (some l) → ⊥
    no_lane i l e =
        let room : i < ranks = omega (
          arith,
          get_elem?-lt (replicate ranks none) i (some l) e,
          length-replicate {A = Option Lane} ranks none,
        ) in
        let empty = get_elem?-replicate {A = Option Lane} ranks i none room in cc

-- A layout that a rank of the communicator accepts gives every incoming lane whole slots inside
-- that rank's window, disjoint from those of every other lane, and every outgoing lane a counter of
-- its own within that rank's counters.
pub layout-LaidOut :
    (ranks me : ℕ) (config : List Spec) (t : Tables)
    → me < ranks
    → layout ranks me config ≡ ok t
    → LaidOut me t
unfolding layout
layout-LaidOut ranks me config t h e =
    elim (Result-cases (guard (not (has_repeat config)) (ring "a lane is configured twice"))) [
      | inr (inl (x, eq)) ↦ absurd (ground (arith, eq))
      | inr (inr eq) ↦ absurd (ground (arith, eq))
      | inl (u, eq) ↦ elim (Result-cases (check_specs ranks config)) [
        | inr (inl (x, eq')) ↦ absurd (ground (arith, eq, eq'))
        | inr (inr eq') ↦ absurd (ground (arith, eq, eq'))
        | inl (u', eq') ↦
            place_all-LaidOut me ranks config (empty_tables ranks) t eq' (start-LaidOut ranks me h)
              (rw (eq, eq') at e)
      ]
    ]
