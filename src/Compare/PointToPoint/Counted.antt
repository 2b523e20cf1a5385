-- ===== src/Compare/PointToPoint/Counted.antt =====
-- The stream of point-to-point messages ends, and both ranks count the same.
use mpi_rma.Base.{
  ℕ, zero, suc, ◌+◌, ◌≤◌, ◌≡◌, refl, sym, ◌∙◌, ap, ap₂, arith, List, [], ◌∷◌, ◌++◌, replicate, ltb,
  ◌⊎◌, inl, inr, Bool-cases,
}
use mathlib.Core.Option.{some-injective}
use mathlib.Core.Path.{subst}
use mpi_rma.Compare.PointToPoint.{
  Parcel, receive_tagged, data_parcel, stop_parcel, count_parcel, sending, waiting, streamed,
  counting, reporting, reported, Stream, first_stream, stream_send, stream_receive, StreamTurn,
  rank0_turns, rank1_turns, StreamTurns, no_turn, one_more,
}

replicate-snoc : {A : Type 0} (n : ℕ) (x : A) → replicate (suc n) x ≡ replicate n x ++ x ∷ []
replicate-snoc zero x = refl
replicate-snoc (suc n) x = ap (λ t. x ∷ t) (replicate-snoc n x)

abbrev in_loop : (sent got : ℕ) → List Parcel → Stream
in_loop sent got q = record {
  rank0 = sending sent;
  rank1 = counting got;
  to_rank1 = q;
  to_rank0 = [];
}

-- All that a stream goes through: `got` messages were received and `d` wait.
data Phase : Type 0 where
  streaming : (got d : ℕ) → Phase
  stopping : (got d : ℕ) → Phase
  answering : Phase
  answered : Phase
  over : Phase

-- Both ranks have returned with the count, and no message is left behind.
abbrev pub AllCounted : ℕ → Stream → Type 0
AllCounted n t =
    (t.rank0 ≡ streamed n n) × (t.rank1 ≡ reported n) × (t.to_rank1 ≡ []) × (t.to_rank0 ≡ [])

module _ (buf : List ℕ) (n : ℕ) where
  abbrev phase_state : Phase → Stream
  phase_state (streaming got d) = in_loop (got + d) got (replicate d (data_parcel buf))
  phase_state (stopping got d) = record {
    rank0 = waiting n;
    rank1 = counting got;
    to_rank1 = replicate d (data_parcel buf) ++ stop_parcel ∷ [];
    to_rank0 = [];
  }
  phase_state answering = record {
    rank0 = waiting n;
    rank1 = reporting n;
    to_rank1 = [];
    to_rank0 = [];
  }
  phase_state answered = record {
    rank0 = waiting n;
    rank1 = reported n;
    to_rank1 = [];
    to_rank0 = count_parcel n ∷ [];
  }
  phase_state over = record {
    rank0 = streamed n n;
    rank1 = reported n;
    to_rank1 = [];
    to_rank0 = [];
  }

  abbrev Sound : Phase → Type 0
  Sound (streaming got d) = got + d ≤ n
  Sound (stopping got d) = got + d ≡ n
  Sound answering = Unit {0}
  Sound answered = Unit {0}
  Sound over = Unit {0}

  -- Twice what is to be sent, what waits, and the turns of the end: `to_go` turns after `k` turns.
  abbrev Left : ℕ → Phase → Type 0
  Left k (streaming got d) = k ≡ got + got + d
  Left k (stopping got d) = k ≡ n + got + 1
  Left k answering = k ≡ n + n + 2
  Left k answered = k ≡ n + n + 3
  Left k over = k ≡ n + n + 4

  At : ℕ → Stream → Type 0
  At k t = (p : Phase) × Sound p × Left k p × (phase_state p ≡ t)

  turn_At :
      (k : ℕ) (p : Phase) (t : Stream)
      → Sound p
      → Left k p
      → StreamTurn buf n (phase_state p) t
      → At (suc k) t
  unfolding At stream_send stream_receive receive_tagged
  turn_At k (streaming got d) t h e (rank0_turns m) = elim (Bool-cases (ltb (got + d) n)) [
    | inl more ↦ (
      streaming got (suc d),
      ground (arith, more),
      omega (arith, e),
      ap₂ (λ sent q. in_loop sent got q) (omega arith) (replicate-snoc d (data_parcel buf))
          ∙ some-injective _ t (rw more at m),
    )
    | inr last ↦ (
      stopping got d,
      ground (arith, last, h),
      ground (arith, last, h, e),
      ap (λ sent. record (phase_state (stopping got d)) { rank0 = waiting sent })
            (ground (arith, last, h))
          ∙ some-injective _ t (rw last at m),
    )
  ]
  turn_At k (streaming got zero) t h e (rank1_turns m) = cc
  turn_At k (streaming got (suc d)) t h e (rank1_turns m) = (
    streaming (got + 1) d,
    omega (arith, h),
    omega (arith, e),
    ap (λ sent. in_loop sent (got + 1) (replicate d (data_parcel buf))) (omega arith)
        ∙ some-injective _ t m,
  )
  turn_At k (stopping got d) t h e (rank0_turns m) = cc
  turn_At k (stopping got zero) t h e (rank1_turns m) = (
    answering,
    tt,
    omega (arith, h, e),
    ap (λ got. record (phase_state answering) { rank1 = reporting got }) (omega (arith, h))
        ∙ some-injective _ t m,
  )
  turn_At k (stopping got (suc d)) t h e (rank1_turns m) =
      (stopping (got + 1) d, omega (arith, h), omega (arith, h, e), some-injective _ t m)
  turn_At k answering t h e (rank0_turns m) = cc
  turn_At k answering t h e (rank1_turns m) = (answered, tt, omega (arith, e), some-injective _ t m)
  turn_At k answered t h e (rank0_turns m) = (over, tt, omega (arith, e), some-injective _ t m)
  turn_At k answered t h e (rank1_turns m) = cc
  turn_At k over t h e (rank0_turns m) = cc
  turn_At k over t h e (rank1_turns m) = cc

  turns_At : {k : ℕ} {t : Stream} → StreamTurns buf n first_stream k t → At k t
  unfolding At
  turns_At no_turn = (streaming 0 0, omega arith, omega arith, refl)
  turns_At {k = suc k} {t = u} (one_more {t = t} run step) =
      let (p, h, e, at) = turns_At run in
      turn_At k p u h e (subst (λ x. StreamTurn buf n x u) (sym at) step)

  abbrev Ends : ℕ → Stream → Type 0
  Ends k t =
      (k ≤ n + n + 4) × (((k ≡ n + n + 4) × AllCounted n t) ⊎ ((u : Stream) × StreamTurn buf n t u))

  phase-Ends : (k : ℕ) (p : Phase) → Sound p → Left k p → Ends k (phase_state p)
  unfolding stream_send stream_receive receive_tagged
  phase-Ends k (streaming got d) h e =
      let ready = replicate d (data_parcel buf) in
      (
        omega (arith, h, e),
        inr (elim (Bool-cases (ltb (got + d) n)) [
          | inl more ↦ (
            in_loop (got + d + 1) got (ready ++ data_parcel buf ∷ []),
            rank0_turns (rw more refl),
          )
          | inr last ↦ (
            record (in_loop 0 got (ready ++ stop_parcel ∷ [])) { rank0 = waiting (got + d) },
            rank0_turns (rw last refl),
          )
        ]),
      )
  phase-Ends k (stopping got zero) h e = (omega (arith, h, e), inr (_, rank1_turns refl))
  phase-Ends k (stopping got (suc d)) h e = (omega (arith, h, e), inr (_, rank1_turns refl))
  phase-Ends k answering h e = (omega (arith, e), inr (_, rank1_turns refl))
  phase-Ends k answered h e = (omega (arith, e), inr (_, rank0_turns refl))
  phase-Ends k over h e = (omega (arith, e), inl (e, (refl, refl, refl, refl)))

  -- Where a send returns at once and messages arrive in the order sent: in every interleaving of
  -- its two ranks, a stream of `n` point-to-point messages takes `2 n + 4` turns, and until then
  -- one of the ranks can take its turn; in the end both ranks return `n` as their counts, rank 0
  -- with a reply of `n`, and no message is left behind.
  pub p2p_counts :
      {k : ℕ} {t : Stream}
      → StreamTurns buf n first_stream k t
      → (k ≤ n + n + 4)
        × (((k ≡ n + n + 4) × AllCounted n t) ⊎ ((u : Stream) × StreamTurn buf n t u))
  unfolding At
  p2p_counts {k} run = let (p, h, e, at) = turns_At run in subst (Ends k) at (phase-Ends k p h e)
