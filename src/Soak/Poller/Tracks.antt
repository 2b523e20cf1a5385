-- ===== src/Soak/Poller/Tracks.antt =====
-- The lanes of one poll, one after another, and the poller's checks on their messages.
use mpi_rma.Base.{All-append_left, All-append_right, All-set}
use mpi_rma.Base.{
  ℕ, ◌+◌, ◌%◌, ◌<◌, ◌≡◌, refl, sym, ◌∙◌, ap, arith, Bool, true, some, List, [], ◌∷◌, ◌++◌, ℤ,
  as_usize, get_elem?, set, length, word_mod, All, Option-cases, inl, inr, length-append,
  All-get_elem?, sub_word, max,
}
use mathlib.Core.List.{append-nil, append_assoc}
use mpi_rma.Error.{Result, ok, err, panic}
use mpi_rma.Action.{Action, and_then}
use mpi_rma.Mpi.{Mpi}
use mpi_rma.Crc.{Crc}
use mpi_rma.Window.Bounds.{IsWindow}
use mpi_rma.Ring.Types.{Message, Lane, Ring, is_safe}
use mpi_rma.Ring.Regions.{IsPlaced}
use mpi_rma.Ring.Poll.{Cursor, Polling, lane_done, poll_lane, poll_lanes}
use mpi_rma.Ring.Poll.Order.{Extends, drain-Extends}
use mpi_rma.Soak.{done, done-bind}
use mpi_rma.Soak.Payload.{verify}
use mpi_rma.Soak.Poller.{Batch, check_batch, check_message}
use mpi_rma.Soak.Poller.Checks.{check_batch_accepts}

check_batch-append :
    (safe : Bool) (xs ys : List Message) (b b1 : Batch)
    → check_batch safe xs b ≡ done b1
    → check_batch safe (xs ++ ys) b ≡ check_batch safe ys b1
unfolding check_batch
check_batch-append safe [] ys b b1 e = let same : b ≡ b1 = cc in ap (check_batch safe ys) same
check_batch-append safe (x ∷ xs) ys b b1 e =
    let (b2, first, rest) = done-bind (check_message safe x b) _ b1 e in
    rw (first, check_batch) (check_batch-append safe xs ys b2 b1 rest)

module _ (m : Mpi) (c : Crc) (w : m.World) (safe : Bool) where
  -- A ring whose lanes lie in its window, between two lanes of a poll. Sequence numbers are words.
  pub record Ready (p : Polling) : Type 0 where
    pub agrees : is_safe p.ring ≡ safe
    pub window : IsWindow m p.ring.slots w
    pub total : ℕ
    pub own : get_elem? p.ring.slots.lengths (as_usize p.ring.slots.rank) ≡ some total
    pub lanes :
        (i : ℕ) (lane : Lane) → get_elem? p.ring.from i ≡ some (some lane) → IsPlaced lane total
    pub small : safe ≡ true → All (λ n. n < word_mod) p.seen

  -- The messages that came in pass on a poller that has seen what the ring has.
  abbrev pub Passes : List ℕ → List Message → List ℕ → Type 0
  Passes before new now =
      All (λ x. verify x ≡ done tt) new
      → (b : Batch) → b.seen ≡ before
      → (b' : Batch) × (check_batch safe new b ≡ done b')
        × (b'.seen ≡ now)
        × (b'.total % word_mod ≡ (b.total + length new) % word_mod)

  pub record Tracks (p q : Polling) : Type 0 where
    pub new : List Message
    pub grown : q.messages ≡ p.messages ++ new
    pub passes : Passes p.seen new q.seen
    pub ready : Ready q

  refl-Tracks : {p : Polling} → Ready p → Tracks p p
  unfolding check_batch Passes
  refl-Tracks {p} ready = record {
    new = [];
    grown = sym (append-nil p.messages);
    passes = λ _ b same. (b, refl, same, omega arith);
    ready = ready;
  }

  trans-Tracks : {p q r : Polling} → Tracks p q → Tracks q r → Tracks p r
  unfolding Passes
  trans-Tracks {p} {q} {r} a d = record {
    new = a.new ++ d.new;
    grown = d.grown ∙ ap (λ xs. xs ++ d.new) a.grown ∙ append_assoc p.messages a.new d.new;
    passes = λ intact b same.
        let (b1, first, seen1, total1) = a.passes (All-append_left _ a.new d.new intact) b same in
        let (b2, rest, seen2, total2) = d.passes (All-append_right _ a.new d.new intact) b1 seen1 in
        (
          b2,
          check_batch-append safe a.new d.new b b1 first ∙ rest,
          seen2,
          omega (arith, total1, total2, length-append a.new d.new),
        );
    ready = d.ready;
  }

  abbrev cursor : Polling → ℕ → Cursor
  cursor p behind = record {
    seen = behind;
    lost = p.ring.lost;
    corrupt = p.ring.corrupt;
    messages = p.messages;
  }

  -- A lane's loop, written back to a ring that is otherwise the same.
  written-Tracks :
      {p : Polling} (r : Ring) (ready : Ready (record p { ring = r })) (origin : ℤ) (behind : ℕ)
      (s : Cursor)
      → get_elem? p.seen (as_usize origin) ≡ some behind
      → Extends safe origin (cursor p behind) s
      → Tracks p
          (record { ring = r; seen = set p.seen (as_usize origin) s.seen; messages = s.messages })
  unfolding Passes
  written-Tracks {p} r ready origin behind s at e =
      let room : safe ≡ true → s.seen < word_mod = λ h.
        e.bounded h
          (All-get_elem? (λ n. n < word_mod) p.seen (as_usize origin) behind (ready.small h) at) in
      record {
        new = e.new;
        grown = e.grown;
        passes = λ intact b same.
            let (b', ran, seen, total) =
              check_batch_accepts safe origin e.new b behind s.seen
                (ap (λ xs. get_elem? xs (as_usize origin)) same ∙ at) e.follows intact room in
            (b', ran, seen ∙ ap (λ xs. set xs (as_usize origin) s.seen) same, total);
        ready = record {
          agrees = ready.agrees;
          window = ready.window;
          total = ready.total;
          own = ready.own;
          lanes = ready.lanes;
          small = λ h.
              All-set (λ n. n < word_mod) p.seen (as_usize origin) s.seen (ready.small h) (room h);
        };
      }

  done-Tracks :
      {p : Polling} (ready : Ready p) (origin : ℤ) (behind : ℕ) (res : Result (Unit {0}))
      (s : Cursor)
      → get_elem? p.seen (as_usize origin) ≡ some behind
      → Extends safe origin (cursor p behind) s
      → Tracks p (lane_done p (as_usize origin) behind (res, s)).1
  unfolding is_safe
  done-Tracks {p} ready origin behind (ok _) s at e =
      written-Tracks
        (record p.ring {
          lost = s.lost;
          corrupt = s.corrupt;
          max_lag = max p.ring.max_lag (sub_word s.seen behind);
        })
        (record {
          agrees = ready.agrees;
          window = ready.window;
          total = ready.total;
          own = ready.own;
          lanes = ready.lanes;
          small = ready.small;
        })
        origin behind s at e
  done-Tracks {p} ready origin behind (err x) s at e =
      written-Tracks (record p.ring { lost = s.lost; corrupt = s.corrupt })
        (record {
          agrees = ready.agrees;
          window = ready.window;
          total = ready.total;
          own = ready.own;
          lanes = ready.lanes;
          small = ready.small;
        })
        origin behind s at e
  done-Tracks {p} ready origin behind panic s at e =
      written-Tracks (record p.ring { lost = s.lost; corrupt = s.corrupt })
        (record {
          agrees = ready.agrees;
          window = ready.window;
          total = ready.total;
          own = ready.own;
          lanes = ready.lanes;
          small = ready.small;
        })
        origin behind s at e

  lane-Tracks : (origin : ℤ) {p : Polling} → Ready p → Tracks p (poll_lane m c w origin p).1
  unfolding poll_lane
  lane-Tracks origin {p} ready = elim (Option-cases (get_elem? p.ring.from (as_usize origin))) [
    | inl outside ↦ rw (poll_lane, outside) (refl-Tracks ready)
    | inr (there, found) ↦ elim (Option-cases there) [
      | inl empty ↦ rw (poll_lane, found, empty) (refl-Tracks ready)
      | inr (lane, full) ↦ elim (Option-cases (get_elem? p.seen (as_usize origin))) [
        | inl gone ↦ rw (poll_lane, found, full, gone) (refl-Tracks ready)
        | inr (behind, at) ↦
            let lane_there = found ∙ ap some full in
            rw (poll_lane, found, full, at, ready.agrees)
              (done-Tracks ready origin behind _ _ at (
                drain-Extends m c ready.window ready.own
                  (ready.lanes (as_usize origin) lane lane_there) safe origin lane.depth
                  (cursor p behind)))
      ]
    ]
  ]

  and_then-Tracks :
      {p : Polling} (r : Result (Unit {0}) × Polling) (next : Action Polling (Unit {0}))
      → Tracks p r.1
      → ((q : Polling) → Ready q → Tracks q (next q).1)
      → Tracks p (and_then r (λ _ q. next q)).1
  and_then-Tracks (ok a, q) next t later = trans-Tracks t (later q t.ready)
  and_then-Tracks (err e, q) next t later = t
  and_then-Tracks (panic, q) next t later = t

  pub lanes-Tracks :
      (origins : List ℤ) {p : Polling} → Ready p → Tracks p (poll_lanes m c w origins p).1
  unfolding poll_lanes
  lanes-Tracks [] ready = refl-Tracks ready
  lanes-Tracks (origin ∷ rest) {p} ready =
      and_then-Tracks (poll_lane m c w origin p) (poll_lanes m c w rest) (lane-Tracks origin ready)
        (λ q. lanes-Tracks rest {p = q})
