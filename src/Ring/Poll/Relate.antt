-- ===== src/Ring/Poll/Relate.antt =====
-- The loop of `poll` on a lane, by a relation between the cursors before and after that every way
-- of a round keeps.
use mpi_rma.Base.{
  ℕ, zero, suc, ◌+◌, ◌-◌, ◌%◌, ◌<◌, ◌≡◌, ap, Bool, false, List, ℤ, word_mod, ltb, ◌==◌, Bool-cases,
  Option-cases, inl, inr, ltb→lt,
}
use mpi_rma.Error.{Result, ok, err, panic, Result-cases}
use mpi_rma.Action.{Action, and_then}
use mpi_rma.Mpi.{Mpi}
use mpi_rma.Crc.{Crc}
use mpi_rma.Window.{Window}
use mpi_rma.Ring.Types.{Lane, Frame}
use mpi_rma.Ring.Slots.{probe, frame, recover}
use mpi_rma.Ring.Poll.{Cursor, absorb, counting, deliver, accept, lapped, round, drain}

module _ (m : Mpi) (c : Crc) (slots : Window) (w : m.World) (safe : Bool) (lane : Lane) (origin : ℤ)
    (R : Cursor → Cursor → Type 0) (kept : (s : Cursor) (n : ℕ) → R s (record s { corrupt = n }))
    (chain : (s t u : Cursor) → R s t → R t u → R s u)
    (takes : (s : Cursor) (bytes : List ℕ)
      → s.seen + 1 < word_mod
      → R s (deliver origin (s.seen + 1) bytes s))
    (skips : safe ≡ false
      → (s : Cursor) (fs : List Frame) (k : ℕ) → s.seen + 1 < word_mod
      → recover m c slots w lane s.seen s.corrupt ≡ (ok fs, k)
      → R s (absorb origin (s.seen + 1) fs (record s { corrupt = k }))) where
  -- A reading of the slots moves `corrupt` only.
  counting_keeps :
      {A B : Type 0} (act : Action ℕ A) (s : Cursor) (k : A → Action Cursor B)
      → ((a : A) (n : ℕ) → (act s.corrupt ≡ (ok a, n)) → R s (k a (record s { corrupt = n })).1)
      → R s (and_then (counting act s) k).1
  counting_keeps act s k h = elim (Result-cases (act s.corrupt).0) [
    | inl (a, e) ↦ rw e (h a (act s.corrupt).1 (ap (λ r. (r, (act s.corrupt).1)) e))
    | inr (inl (x, e)) ↦ rw e (kept s (act s.corrupt).1)
    | inr (inr e) ↦ rw e (kept s (act s.corrupt).1)
  ]

  lapped_keeps :
      (found : ℕ) (s : Cursor)
      → s.seen + 1 < word_mod
      → R s (lapped m c slots w safe lane origin (s.seen + 1) found s).1
  unfolding lapped
  lapped_keeps found s small = elim (Bool-cases safe) [
    | inl guarded ↦ rw guarded (kept s s.corrupt)
    | inr raw ↦
        rw raw (
          counting_keeps (recover m c slots w lane s.seen) s _ (λ fs k e. skips raw s fs k small e))
  ]

  accept_keeps :
      (position : ℕ) (s : Cursor)
      → s.seen + 1 < word_mod
      → R s (accept m c slots w lane origin (s.seen + 1) position s).1
  unfolding accept
  accept_keeps position s small = counting_keeps (frame m c slots w lane position) s _ (λ got k e.
      elim (Option-cases got) [
        | inl missing ↦ rw missing (kept s k)
        | inr (f, there) ↦ elim (Bool-cases (f.sequence == s.seen + 1)) [
          | inl same ↦
              rw (there, same)
                (chain s (record s { corrupt = k }) _ (kept s k)
                  (takes (record s { corrupt = k }) f.bytes small))
          | inr other ↦ rw (there, other) (kept s k)
        ]
      ])

  round_keeps : (s : Cursor) → R s (round m c slots w safe lane origin s).1
  unfolding round
  round_keeps s = elim (Bool-cases (ltb (s.seen + 1) word_mod)) [
    | inr last ↦ rw (last, round) (kept s s.corrupt)
    | inl more ↦
        let small = ltb→lt (s.seen + 1) word_mod more in
        let at = (s.seen + 1 - 1) % lane.depth in
        rw (more, round)
          (counting_keeps (probe m slots w lane at) s _ (λ found n e.
            let s' : Cursor = record s { corrupt = n } in
            elim (Option-cases found) [
              | inl missing ↦ rw missing (kept s n)
              | inr (q, there) ↦ elim (Bool-cases (ltb q (s.seen + 1))) [
                | inl old ↦ rw (there, old) (kept s n)
                | inr fresh ↦ elim (Bool-cases (ltb (s.seen + 1) q)) [
                  | inl beyond ↦
                      rw (there, fresh, beyond) (chain s s' _ (kept s n) (lapped_keeps q s' small))
                  | inr due ↦
                      rw (there, fresh, due) (chain s s' _ (kept s n) (accept_keeps at s' small))
                ]
              ]
            ]))
  ]

  and_then_keeps :
      {A B : Type 0} (s : Cursor) (r : Result A × Cursor) (k : A → Action Cursor B)
      → R s r.1
      → ((a : A) (t : Cursor) → R t (k a t).1)
      → R s (and_then r k).1
  and_then_keeps s (ok a, t) k h step = chain s t (k a t).1 h (step a t)
  and_then_keeps s (err e, t) k h step = h
  and_then_keeps s (panic, t) k h step = h

  pub drain_keeps : (left : ℕ) (s : Cursor) → R s (drain m c slots w safe lane origin left s).1
  unfolding drain
  drain_keeps zero s = kept s s.corrupt
  drain_keeps (suc left) s =
      and_then_keeps s (round m c slots w safe lane origin s) _ (round_keeps s) (λ more t.
        elim (Bool-cases more) [
          | inl on ↦ rw on (drain_keeps left t)
          | inr off ↦ rw off (kept t t.corrupt)
        ])
