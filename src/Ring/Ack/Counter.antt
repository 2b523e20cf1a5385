-- ===== src/Ring/Ack/Counter.antt =====
-- `ack` on a safe lane whose counter agrees with the receiver's own record of it.
use mpi_rma.Base.{
  ℕ, ◌≤◌, ◌<◌, ◌≡◌, ◌≢◌, ◌↔◌, ◌⊎◌, refl, sym, ◌∙◌, ap, arith, some, max, leb, ltb, ◌==◌, ◌&&◌, ◌||◌,
  inl, inr, if◌then◌else◌,
}
use mpi_rma.Base.{
  ℤ, pos, set, get_elem?, word_mod, add_word, sub_word, get_elem?-lt, get_elem?-set_self,
  get_elem?-set_ne,
}
use native.Mathlib.Decide.{dec_lt, ℕ_discrete}
use mpi_rma.Error.{Error, Result, ok, err, ring}
use mpi_rma.Mpi.{Mpi, Laws, Reliable}
use mpi_rma.Window.{Window, validate, fetch_add}
use mpi_rma.Window.Bounds.{IsWindow, validate_iff}
use mpi_rma.Window.Transfer.{fetch_total, fetch_lands, fetch-IsWindow}
use mpi_rma.Ring.Types.{Lane}
use mpi_rma.Ring.Ack.{ack_lane}

module _ (m : Mpi) (acks : Window) (lane : Lane) (origin : ℤ) (source : ℕ) (w : m.World)
    (seen acked sequence : ℕ) where
  -- What a call leaves: `Ok` exactly for a sequence already seen; the local record moves up to it
  -- and never back; the counter at the origin agrees with the record again.
  pub record Acknowledged (r : Result (Unit {0}) × ℕ × m.World) : Type 0 where
    pub accepts : (r.0 ≡ ok tt) ↔ (sequence ≤ seen)
    pub refuses : (r.0 ≡ err (Error.ack origin sequence seen)) ↔ (seen < sequence)
    pub record_moves : r.1 ≡ (if leb sequence seen then max acked sequence else acked)
    pub counter_agrees : get_elem? (m.memory acks.win source r.2) lane.ack ≡ some r.1
    pub others_kept :
        (i : ℕ)
        → lane.ack ≢ i
        → get_elem? (m.memory acks.win source r.2) i ≡ get_elem? (m.memory acks.win source w) i
    pub elsewhere :
        (win d : ℕ) → (win ≢ acks.win) ⊎ (d ≢ source) → m.memory win d r.2 ≡ m.memory win d w
    pub windows : (t : Window) → IsWindow m t w → IsWindow m t r.2

module _ (m : Mpi) (laws : Laws m) (reliable : Reliable m) {acks : Window} (lane : Lane)
    (origin : ℤ) (source : ℕ) (is_origin : origin ≡ pos source) (w : m.World)
    (v : IsWindow m acks w) {total : ℕ} (there : get_elem? acks.lengths source ≡ some total)
    (inside : lane.ack < total) (seen acked sequence : ℕ) (behind : acked ≤ seen)
    (small : seen < word_mod) (held : ℕ)
    (holds : get_elem? (m.memory acks.win source w) lane.ack ≡ some held) where
  allowed : validate acks (pos source) lane.ack 1 ≡ ok tt
  allowed = (validate_iff acks v.size (pos source) lane.ack 1).1 (record {
    index = source;
    total = total;
    is_rank = refl;
    is_length = there;
    fits = omega arith;
    no_overflow = omega (arith, v.small source total there);
  })

  delta : ℕ
  delta = sub_word sequence acked

  added : Result ℕ × m.World
  unfolding delta
  added = fetch_add m acks (pos source) lane.ack delta w

  module _ (new : acked < sequence) (known : sequence ≤ seen) where
    previous : ℕ
    unfolding delta
    previous = (m.fetch_and_sum acks.win (pos source) lane.ack delta w).1

    added_ok : added ≡ (ok previous, added.1)
    unfolding added previous
    added_ok =
        let done = fetch_total m reliable acks source lane.ack delta w allowed in
        ground (arith, done)

    landing :
        (previous ≡ held)
        × (m.memory acks.win source added.1
            ≡ set (m.memory acks.win source w) lane.ack (add_word held delta))
        × ((win d : ℕ)
            → (win ≢ acks.win) ⊎ (d ≢ source)
            → m.memory win d added.1 ≡ m.memory win d w)
    landing =
        fetch_lands m laws acks source lane.ack delta held w added.1 previous holds
          (unfold added in added_ok)

    whole : add_word acked delta ≡ sequence
    unfolding delta
    whole = omega arith

    advance :
        held ≡ acked
        → ack_lane m acks lane origin (ok seen) acked sequence w ≡ (ok tt, sequence, added.1)
    unfolding ack_lane added delta
    advance agrees = rw (is_origin, ack_lane) (ground (arith, added_ok, landing.0))

    diverge :
        held ≢ acked
        → ack_lane m acks lane origin (ok seen) acked sequence w
          ≡ (err (ring "acknowledgement counter diverged"), acked, added.1)
    unfolding ack_lane added delta
    diverge differs =
        let other : previous ≢ acked = λ e. differs (sym landing.0 ∙ e) in
        rw (is_origin, ack_lane) (ground (arith, added_ok, other))

    counter_grown :
        get_elem? (m.memory acks.win source added.1) lane.ack ≡ some (add_word held delta)
    counter_grown = rw landing.1 (
        get_elem?-set_self (m.memory acks.win source w) lane.ack (add_word held delta)
          (get_elem?-lt _ lane.ack held holds))

  idle :
      sequence ≤ acked → ack_lane m acks lane origin (ok seen) acked sequence w ≡ (ok tt, acked, w)
  unfolding ack_lane
  idle old = ground arith

  early :
      seen < sequence
      → ack_lane m acks lane origin (ok seen) acked sequence w
        ≡ (err (Error.ack origin sequence seen), acked, w)
  unfolding ack_lane
  early beyond = ground arith

  pub ack_lane_lem :
      held ≡ acked
      → Acknowledged m acks lane origin source w seen acked sequence
          (ack_lane m acks lane origin (ok seen) acked sequence w)
  ack_lane_lem agrees = elim (dec_lt seen sequence) [
    | yes beyond ↦ rw (early beyond) (record {
      accepts = (λ e. cc, λ h. absurd (omega arith));
      refuses = (λ e. beyond, λ h. refl);
      record_moves = ground arith;
      counter_agrees = holds ∙ ap some agrees;
      others_kept = λ i ne. refl;
      elsewhere = λ win d ne. refl;
      windows = λ t u. u;
    })
    | no within ↦ elim (dec_lt acked sequence) [
      | no old ↦ rw (idle (omega arith)) (record {
        accepts = (λ e. omega arith, λ h. refl);
        refuses = (λ e. cc, λ h. absurd (omega arith));
        record_moves = ground arith;
        counter_agrees = holds ∙ ap some agrees;
        others_kept = λ i ne. refl;
        elsewhere = λ win d ne. refl;
        windows = λ t u. u;
      })
      | yes new ↦
          let known : sequence ≤ seen = omega arith in
          rw (advance new known agrees) (record {
            accepts = (λ e. known, λ h. refl);
            refuses = (λ e. cc, λ h. absurd (omega arith));
            record_moves = ground arith;
            counter_agrees =
                counter_grown new known
                ∙ ap (λ n. some (add_word n delta)) agrees
                ∙ ap some (whole new known);
            others_kept = λ i ne.
                rw (landing new known).1
                  (get_elem?-set_ne (m.memory acks.win source w) (add_word held delta) ne);
            elsewhere = (landing new known).2;
            windows =
                fetch-IsWindow m laws acks source lane.ack delta held w (added).1
                  (previous new known) holds (unfold added in added_ok new known);
          })
    ]
  ]

  -- With a library that keeps its laws and does not fail, and a sound `seen` lock, on a lane whose
  -- counter lies in the origin's window and whose record is not beyond the last sequence seen, a
  -- word: whatever the counter holds, `ack` answers `Ok` exactly for a sequence already
  -- acknowledged, or for a received one while the counter agrees with this rank's record; the
  -- documented refusal exactly for a sequence not received; and the error of a diverged counter
  -- exactly for a received new sequence whose counter disagrees. The record moves up to an accepted
  -- sequence and never back, and the counter grows by the difference for a received new sequence
  -- only.
  pub ack_tight :
      let r = ack_lane m acks lane origin (ok seen) acked sequence w in
      ((r.0 ≡ ok tt) ↔ ((sequence ≤ acked) ⊎ ((sequence ≤ seen) × (held ≡ acked))))
      × ((r.0 ≡ err (Error.ack origin sequence seen)) ↔ (seen < sequence))
      × ((r.0 ≡ err (ring "acknowledgement counter diverged"))
          ↔ ((acked < sequence) × (sequence ≤ seen) × (held ≢ acked)))
      × (r.1 ≡ (
          if leb sequence seen && (leb sequence acked || held == acked)
          then max acked sequence
          else acked))
      × (get_elem? (m.memory acks.win source r.2) lane.ack
          ≡ some (
              if ltb acked sequence && leb sequence seen
              then add_word held (sub_word sequence acked)
              else held))
  unfolding delta
  ack_tight = elim (dec_lt seen sequence) [
    | yes beyond ↦
        let high : acked < sequence = omega arith in
        rw (early beyond) (
          (λ e. cc, λ h. absurd (ground (arith, h))),
          (λ e. beyond, λ h. refl),
          (λ e. cc, λ h. absurd (omega (arith, h.1))),
          ground arith,
          holds ∙ ap some (ground arith),
        )
    | no within ↦ elim (dec_lt acked sequence) [
      | no old ↦ rw (idle (omega arith)) (
        (λ e. inl (omega arith), λ h. refl),
        (λ e. cc, λ h. absurd (omega arith)),
        (λ e. cc, λ h. absurd (omega (arith, h.0))),
        ground arith,
        holds ∙ ap some (ground arith),
      )
      | yes new ↦
          let known : sequence ≤ seen = omega arith in
          elim (ℕ_discrete held acked) [
            | yes agrees ↦ rw (advance new known agrees) (
              (λ e. inr (known, agrees), λ h. refl),
              (λ e. cc, λ h. absurd (omega arith)),
              (λ e. cc, λ h. absurd (h.2 agrees)),
              ground arith,
              counter_grown new known ∙ ap some (ground arith),
            )
            | no differs ↦ rw (diverge new known differs) (
              (λ e. cc, λ h. absurd (ground (arith, h, differs))),
              (λ e. cc, λ h. absurd (omega arith)),
              (λ e. (new, known, differs), λ h. refl),
              ground (arith, differs),
              counter_grown new known ∙ ap some (ground arith),
            )
          ]
    ]
  ]
