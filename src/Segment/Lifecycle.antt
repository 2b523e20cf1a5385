-- ===== src/Segment/Lifecycle.antt =====
-- A segment's cleanup: `detach` and `retire` in any order, and then `drop`.
use mpi_rma.Base.{
  ℕ, Option, ◌≢◌, eqb_ℤ→eq, ◌≡◌, refl, sym, ◌∙◌, ap, ◌⊎◌, inl, inr, true, false, none, some, List,
  [], ◌∷◌, String, ℤ, pos, eqb_ℤ, arith, Bool-cases, Option-cases,
}
use mathlib.Core.Path.{subst}
use mpi_rma.Segment.Io.{Os, Outcome, done, refused, aborted, os}
use mpi_rma.Segment.Names.{NameLaws}
use mpi_rma.Segment.{Segment, unlinked, detach, retire, drop_segment}

pub data Call : Type 0 where
  detaches retires : Call

not_zero : (n : ℤ) → eqb_ℤ n (pos 0) ≡ false → n ≢ pos 0
not_zero n e same = let yes : eqb_ℤ n (pos 0) ≡ true = ap (λ x. eqb_ℤ x (pos 0)) same in cc

module _ (o : Os) where
  open o use {World}

  -- The segment and the world after a call that returned or unwound.
  abbrev pub call : Call → Segment × World → Segment × World
  call detaches (s, w) = let r = detach o s w in (r.1, r.2)
  call retires (s, w) = let r = retire o s w in (r.1, r.2)

  unfoldable pub calls : List Call → Segment × World → Segment × World
  calls [] state = state
  calls (c ∷ cs) state = calls cs (call c state)

  call_failed :
      (c : Call) (s : Segment) (w : World) (f : String × ℤ)
      → s.failed ≡ some f
      → call c (s, w) ≡ (s, w)
  unfolding detach retire
  call_failed detaches s w f e = ground (arith, e)
  call_failed retires s w f e = ground (arith, e)

  -- A failure that was recorded stays: no further `detach` or `retire`, in any number and order,
  -- makes a call of the system or changes the segment, and `drop` ends the process without one.
  pub failure_sticks :
      (cs : List Call) (s : Segment) (w : World) (f : String × ℤ)
      → s.failed ≡ some f
      → (calls cs (s, w) ≡ (s, w)) × (drop_segment o s w ≡ (aborted, w))
  unfolding calls drop_segment
  failure_sticks [] s w f e = (refl, ground (arith, e))
  failure_sticks (c ∷ cs) s w f e =
      let rest = failure_sticks cs s w f e in
      (ap (calls cs) (call_failed c s w f e) ∙ rest.0, rest.1)

  -- The three ends of a `retire` by an owner without a recorded failure.
  retire_cases :
      (s : Segment) (w : World)
      → s.failed ≡ none
      → s.owner ≡ true
      → let r = retire o s w in
        ((r.0 ≡ done tt) × (r.1.base ≡ none) × (r.1.owner ≡ false) × (r.1.failed ≡ none))
        ⊎ (((n : ℤ) × (r.0 ≡ refused (os n)) × (r.1 ≡ record s { failed = some ("munmap", n) }))
            ⊎ ((n : ℤ) × (r.0 ≡ refused (os n))
                × (r.1 ≡ record s { base = none; failed = some ("shm_unlink", n) })))
  unfolding retire detach
  retire_cases s w clean mine = elim (Option-cases s.base) [
    | inl away ↦ elim (Bool-cases (eqb_ℤ (o.shm_unlink s.name w).0 (pos 0))) [
      | inl good ↦ inl (ground (arith, clean, mine, away, good))
      | inr bad ↦ inr (
          inr (
            o.errno (o.shm_unlink s.name w).1,
            ground (arith, clean, mine, away, bad),
            ground (arith, clean, mine, away, bad),
          ))
    ]
    | inr (b, base) ↦ elim (Bool-cases (eqb_ℤ (o.munmap b s.size w).0 (pos 0))) [
      | inr stuck ↦ inr (
          inl (
            o.errno (o.munmap b s.size w).1,
            ground (arith, clean, mine, base, stuck),
            ground (arith, clean, mine, base, stuck),
          ))
      | inl free ↦
          let after = (o.munmap b s.size w).1 in
          elim (Bool-cases (eqb_ℤ (o.shm_unlink s.name after).0 (pos 0))) [
            | inl good ↦ inl (ground (arith, clean, mine, base, free, good))
            | inr bad ↦ inr (
                inr (
                  o.errno (o.shm_unlink s.name after).1,
                  ground (arith, clean, mine, base, free, bad),
                  ground (arith, clean, mine, base, free, bad),
                ))
          ]
    ]
  ]

  -- The world after the mapping, if there is one, was taken away.
  abbrev pub Unmapped : Option ℕ → (size : ℕ) → World → World → Type 0
  Unmapped none size w w1 = w1 ≡ w
  Unmapped (some b) size w w1 = ((o.munmap b size w).0 ≡ pos 0) × (w1 ≡ (o.munmap b size w).1)

  abbrev Settled : Segment → World → Outcome (Unit {0}) × Segment × World → Type 0
  Settled s w r =
      ((w1 : World) × Unmapped s.base s.size w w1
        × ((o.shm_unlink s.name w1).0 ≡ pos 0)
        × (r.2 ≡ (o.shm_unlink s.name w1).1)
        × (o.present s.name r.2 ≡ false)
        × (r.0 ≡ done tt)
        × (r.1 ≡ record s { base = none; owner = false }))
      ⊎ (((b : ℕ) × (s.base ≡ some b)
            × ((o.munmap b s.size w).0 ≢ pos 0)
            × (r.2 ≡ (o.munmap b s.size w).1)
            × (o.present s.name r.2 ≡ o.present s.name w)
            × (r.0 ≡ refused (os (o.errno r.2)))
            × (r.1 ≡ record s { failed = some ("munmap", o.errno r.2) }))
          ⊎ ((w1 : World) × Unmapped s.base s.size w w1
              × ((o.shm_unlink s.name w1).0 ≢ pos 0)
              × (r.2 ≡ (o.shm_unlink s.name w1).1)
              × (r.0 ≡ refused (os (o.errno r.2)))
              × (r.1 ≡ record s { base = none; failed = some ("shm_unlink", o.errno r.2) })))

  -- `retire` after a `detach` that returned `Ok`.
  unlinks :
      (s : Segment) (w w1 : World)
      → NameLaws o s.name
      → Unmapped s.base s.size w w1
      → s.failed ≡ none
      → Settled s w (unlinked o (done tt, record s { base = none }, w1))
  unlinks s w w1 names away clean =
      let r = o.shm_unlink s.name w1 in
      elim (Bool-cases (eqb_ℤ r.0 (pos 0))) [
        | inl good ↦
            let fine = eqb_ℤ→eq r.0 (pos 0) good in
            rw good (inl (w1, away, fine, refl, names.unlinked w1 fine, refl, refl))
        | inr bad ↦ rw bad (inr (inr (w1, away, not_zero r.0 bad, refl, refl, refl)))
      ]

  -- Where the system keeps the documentation of names: the three ends of a `retire` by an owner
  -- without a recorded failure. Either its mapping was unmapped and its name unlinked, and the name
  -- is gone; or the one refused `munmap` is recorded and the name stays as it was; or the mapping
  -- was unmapped and the one refused `shm_unlink` is recorded, and the segment keeps its name.
  pub retire_settles :
      (s : Segment) (w : World)
      → NameLaws o s.name
      → s.failed ≡ none
      → s.owner ≡ true
      → let r = retire o s w in
        ((w1 : World) × Unmapped s.base s.size w w1
          × ((o.shm_unlink s.name w1).0 ≡ pos 0)
          × (r.2 ≡ (o.shm_unlink s.name w1).1)
          × (o.present s.name r.2 ≡ false)
          × (r.0 ≡ done tt)
          × (r.1 ≡ record s { base = none; owner = false }))
        ⊎ (((b : ℕ) × (s.base ≡ some b)
              × ((o.munmap b s.size w).0 ≢ pos 0)
              × (r.2 ≡ (o.munmap b s.size w).1)
              × (o.present s.name r.2 ≡ o.present s.name w)
              × (r.0 ≡ refused (os (o.errno r.2)))
              × (r.1 ≡ record s { failed = some ("munmap", o.errno r.2) }))
            ⊎ ((w1 : World) × Unmapped s.base s.size w w1
                × ((o.shm_unlink s.name w1).0 ≢ pos 0)
                × (r.2 ≡ (o.shm_unlink s.name w1).1)
                × (r.0 ≡ refused (os (o.errno r.2)))
                × (r.1 ≡ record s { base = none; failed = some ("shm_unlink", o.errno r.2) })))
  unfolding retire detach
  retire_settles s w names clean mine = elim (Option-cases s.base) [
    | inl away ↦
        let bare : s ≡ record s { base = none } = ap (λ b. record s { base = b }) away in
        let run : retire o s w ≡ unlinked o (done tt, record s { base = none }, w) =
          ground (arith, clean, mine, away) ∙ ap (λ t. unlinked o (done tt, t, w)) bare in
        subst (Settled s w) (sym run)
          (unlinks s w w names (subst (λ b. Unmapped b s.size w w) (sym away) refl) clean)
    | inr (b, base) ↦
        let r = o.munmap b s.size w in
        elim (Bool-cases (eqb_ℤ r.0 (pos 0))) [
          | inr stuck ↦
              let run : retire o s w ≡ (
                refused (os (o.errno r.1)),
                record s { failed = some ("munmap", o.errno r.1) },
                r.1,
              ) =
                ground (arith, clean, mine, base, stuck) in
              subst (Settled s w) (sym run) (
                inr (
                  inl
                    (b, base, not_zero r.0 stuck, refl, names.unmap_keeps b s.size w, refl, refl)))
          | inl free ↦
              let run : retire o s w ≡ unlinked o (done tt, record s { base = none }, r.1) =
                ground (arith, clean, mine, base, free) in
              subst (Settled s w) (sym run) (
                unlinks s w r.1 names
                  (subst (λ x. Unmapped x s.size w r.1) (sym base)
                    (eqb_ℤ→eq r.0 (pos 0) free, refl))
                  clean)
        ]
  ]

  call_retired :
      (c : Call) (s : Segment) (w : World)
      → s.failed ≡ none
      → s.base ≡ none
      → s.owner ≡ false
      → call c (s, w) ≡ (s, w)
  unfolding detach retire
  call_retired detaches s w clean away loose = ground (arith, clean, away, loose)
  call_retired retires s w clean away loose = ground (arith, clean, away, loose)

  calls_retired :
      (cs : List Call) (s : Segment) (w : World)
      → s.failed ≡ none
      → s.base ≡ none
      → s.owner ≡ false
      → calls cs (s, w) ≡ (s, w)
  unfolding calls
  calls_retired [] s w clean away loose = refl
  calls_retired (c ∷ cs) s w clean away loose =
      ap (calls cs) (call_retired c s w clean away loose) ∙ calls_retired cs s w clean away loose

  drop_retired :
      (s : Segment) (w : World)
      → s.failed ≡ none
      → s.base ≡ none
      → s.owner ≡ false
      → drop_segment o s w ≡ (done tt, w)
  unfolding drop_segment
  drop_retired s w clean away loose = ground (arith, clean, away, loose)

  -- After an owner's `retire` that returned `Ok`, no `detach`, `retire` or `drop` makes a call of
  -- the system: the name is not unlinked again, and a newer object under it is safe.
  pub retire_once :
      (s : Segment) (w : World) (cs : List Call)
      → s.failed ≡ none
      → s.owner ≡ true
      → (retire o s w).0 ≡ done tt
      → let r = retire o s w in
        (calls cs (r.1, r.2) ≡ (r.1, r.2)) × (drop_segment o r.1 r.2 ≡ (done tt, r.2))
  retire_once s w cs clean mine fine = elim (retire_cases s w clean mine) [
    | inl (good, away, loose, unfailed) ↦ (
      calls_retired cs (retire o s w).1 (retire o s w).2 unfailed away loose,
      drop_retired (retire o s w).1 (retire o s w).2 unfailed away loose,
    )
    | inr (inl (n, bad, left)) ↦ absurd (refused-done n (sym bad ∙ fine))
    | inr (inr (n, bad, left)) ↦ absurd (refused-done n (sym bad ∙ fine))
  ]
    where
      refused-done : (n : ℤ) → ◌≡◌ {A = Outcome (Unit {0})} (refused (os n)) (done tt) → ⊥
      refused-done n e = cc
