-- ===== src/Ring/Ack/Effect.antt =====
-- What an `ack` that returns `Ok` did, on a ring with any content.
use mpi_rma.Base.{ℕ, ◌≡◌, ◌≢◌, refl, sym, ◌∙◌, ap, arith, ◌⊎◌, inl, inr, some, List}
use mpi_rma.Base.{ℤ, get_elem?, ltb, leb, sub_word, Bool-cases, Option-cases}
use mpi_rma.Base.{get_elem?_total}
use mpi_rma.Error.{Result, ok, err, panic, Result-cases}
use mpi_rma.Mpi.{Mpi, Laws}
use mpi_rma.Window.{Window, validate, fetch_add}
use mpi_rma.Window.Bounds.{IsWindow, validate_iff}
use mpi_rma.Window.Transfer.{fetch_lands, fetch-IsWindow}
use mpi_rma.Ring.Types.{Lane, Mutex, Ring}
use mpi_rma.Ring.Send.{peer}
use mpi_rma.Ring.Ack.{ack_lane, ack, seen_from, counted, put_back}

module _ (m : Mpi) (origin : ℤ) (w w' : m.World) where
  -- The world is as it was, or one counter was moved.
  abbrev pub Moved : Window → Type 0
  Moved acks = (w' ≡ w) ⊎ ((disp v got : ℕ) × (fetch_add m acks origin disp v w ≡ (ok got, w')))

  counted_effect :
      (acks : Window) (lane : Lane) (acked sequence a : ℕ) (got : Result ℕ) (w1 : m.World)
      → fetch_add m acks origin lane.ack (sub_word sequence acked) w ≡ (got, w1)
      → counted m acked sequence (got, w1) ≡ (ok tt, a, w')
      → Moved acks
  counted_effect acks lane acked sequence a (ok previous) w1 f e =
      let same : w1 ≡ w' = ground (arith, e) in
      inr (lane.ack, sub_word sequence acked, previous, f ∙ ap (λ x. (ok previous, x)) same)
  counted_effect acks lane acked sequence a (err x) w1 f e = absurd (ground (arith, e))
  counted_effect acks lane acked sequence a panic w1 f e = absurd (ground (arith, e))

  lane_effect :
      (acks : Window) (lane : Lane) (seen : Result ℕ) (acked sequence a : ℕ)
      → ack_lane m acks lane origin seen acked sequence w ≡ (ok tt, a, w')
      → Moved acks
  unfolding ack_lane
  lane_effect acks lane seen acked sequence a e = elim (Bool-cases (leb sequence acked)) [
    | inl old ↦ inl (ground (arith, e, old))
    | inr new ↦ elim (Result-cases seen) [
      | inr (inl (x, q)) ↦ absurd (ground (arith, e, new, q))
      | inr (inr q) ↦ absurd (ground (arith, e, new, q))
      | inl (s, q) ↦ elim (Bool-cases (ltb s sequence)) [
        | inl early ↦ absurd (ground (arith, e, new, q, early))
        | inr known ↦
            let f = fetch_add m acks origin lane.ack (sub_word sequence acked) w in
            counted_effect acks lane acked sequence a f.0 f.1 refl
              (rw (ack_lane, new, q, known) at e)
      ]
    ]
  ]

  -- At most the ring's record of what it acknowledged changed.
  pub record Acked (r r' : Ring) : Type 0 where
    pub record_of : Mutex (List ℕ)
    pub others : r' ≡ record r { acked = record_of }
    pub moved : (w' ≡ w) ⊎ ((a : Window) × (r.acks ≡ some a) × Moved a)

  idle_Acked :
      (r r' : Ring) (e : ◌≡◌ {A = Result (Unit {0}) × Ring × m.World} (ok tt, r, w) (ok tt, r', w'))
      → Acked r r'
  idle_Acked r r' e = record {
    record_of = r.acked;
    others = sym (ap (λ t. t.1) e);
    moved = inl (sym (ap (λ t. t.2) e));
  }

  moved_Acked :
      (r r' : Ring) (a : Window) (acked : List ℕ) (i : ℕ) (t : Result (Unit {0}) × ℕ × m.World)
      → r.acks ≡ some a
      → ((n : ℕ) → t ≡ (ok tt, n, w') → Moved a)
      → put_back m r acked i t ≡ (ok tt, r', w')
      → Acked r r'
  moved_Acked r r' a acked i (res, n, w1) there effect e =
      let good : res ≡ ok tt = ap (λ x. x.0) e in
      let world : w1 ≡ w' = ap (λ x. x.2) e in
      record {
        record_of = r'.acked;
        others =
            let left = ap (λ x. x.1) e in sym left ∙ ap (λ x. record r { acked = x.acked }) left;
        moved = inr (a, there, effect n (rw (good, world) refl));
      }

  not_ok :
      (r r' : Ring) (res : Result (Unit {0})) (w1 : m.World)
      → res ≢ ok tt
      → ◌≡◌ {A = Result (Unit {0}) × Ring × m.World} (res, r, w1) (ok tt, r', w')
      → ⊥
  not_ok r r' res w1 bad e = bad (ap (λ t. t.0) e)

  -- The part of `ack` once the ring is known to be safe and the lane to exist.
  lane_Acked :
      (r r' : Ring) (a : Window) (lane : Lane) (i sequence : ℕ)
      → r.acks ≡ some a
      → peer r origin ≡ ok i
      → get_elem? r.from i ≡ some (some lane)
      → ack m r origin sequence w ≡ (ok tt, r', w')
      → Acked r r'
  unfolding ack
  lane_Acked r r' a lane i sequence there q found e = elim (Bool-cases r.acked.poisoned) [
    | inl bad ↦ absurd (not_ok r r' _ w (λ x. cc) (rw (ack, q, there, found, bad) at e))
    | inr clean ↦ elim (Option-cases (get_elem? r.acked.value i)) [
      | inl gone ↦ absurd (not_ok _ r' _ w (λ x. cc) (rw (ack, q, there, found, clean, gone) at e))
      | inr (n, at) ↦
          moved_Acked r r' a r.acked.value i
            (ack_lane m a lane origin (seen_from m r i) n sequence w) there
            (λ k f. lane_effect a lane (seen_from m r i) n sequence k f)
            (rw (ack, q, there, found, clean, at) at e)
    ]
  ]

  pub ack-Acked :
      (r r' : Ring) (sequence : ℕ) → ack m r origin sequence w ≡ (ok tt, r', w') → Acked r r'
  unfolding ack
  ack-Acked r r' sequence e = elim (Result-cases (peer r origin)) [
    | inr (inl (x, q)) ↦ absurd (not_ok r r' _ w (λ y. cc) (rw (ack, q) at e))
    | inr (inr q) ↦ absurd (not_ok r r' _ w (λ y. cc) (rw (ack, q) at e))
    | inl (i, q) ↦ elim (Option-cases r.acks) [
      | inl raw ↦ idle_Acked r r' (rw (ack, q, raw) at e)
      | inr (a, there) ↦ elim (Option-cases (get_elem? r.from i)) [
        | inl outside ↦ absurd (not_ok r r' _ w (λ y. cc) (rw (ack, q, there, outside) at e))
        | inr (o, found) ↦ elim (Option-cases o) [
          | inl empty ↦ absurd (not_ok r r' _ w (λ y. cc) (rw (ack, q, there, found, empty) at e))
          | inr (lane, full) ↦ lane_Acked r r' a lane i sequence there q (found ∙ ap some full) e
        ]
      ]
    ]
  ]

module _ (m : Mpi) (laws : Laws m) (acks : Window) (origin : ℤ) (w w' : m.World)
    (v : IsWindow m acks w) (disp delta got : ℕ)
    (e : fetch_add m acks origin disp delta w ≡ (ok got, w')) where
  checked_first : validate acks origin disp 1 ≡ ok tt
  unfolding fetch_add
  checked_first = elim (Result-cases (validate acks origin disp 1)) [
    | inl (u, q) ↦ q
    | inr (inl (x, q)) ↦ absurd (ground (arith, e, q))
    | inr (inr q) ↦ absurd (ground (arith, e, q))
  ]

  -- An atomic addition that succeeds leaves every other window, and every window's size.
  pub fetch_effect :
      ((win d : ℕ) → win ≢ acks.win → m.memory win d w' ≡ m.memory win d w)
      × ((t : Window) → IsWindow m t w → IsWindow m t w')
  fetch_effect =
      let a = (validate_iff acks v.size origin disp 1).0 checked_first in
      let whole = v.stored a.index a.total a.is_length in
      let fits = a.fits in
      let (old, there) =
        get_elem?_total (m.memory acks.win a.index w) disp (omega (arith, whole, fits)) in
      let call = rw a.is_rank at e in
      (
        λ win d ne.
            (fetch_lands m laws acks a.index disp delta old w w' got there call).2 win d (inl ne),
        fetch-IsWindow m laws acks a.index disp delta old w w' got there call,
      )
