-- ===== src/Soak/Sender/Rounds.antt =====
-- What the rounds hand to the ring for one destination.
use mpi_rma.Base.{
  ℕ, zero, suc, ◌+◌, ◌%◌, ◌^◌, ◌≤◌, ◌<◌, ◌≡◌, ◌≢◌, refl, sym, ◌∙◌, ap, arith, Option, none, some,
  List, [], ◌∷◌, ◌++◌, pos, length, ltb, ◌==◌, Bool-cases, inl, inr,
}
use mathlib.Core.List.{append-nil, append_assoc}
use mpi_rma.Error.{Result, ok, err, panic}
use mpi_rma.Soak.{Outcome, done, ◌>>=◌}
use mpi_rma.Soak.Payload.{paint, stamp}
use mpi_rma.Soak.Sender.{Sender, to_peer, round, rounds, sent, paced}
use mpi_rma.Soak.Sender.Payloads.{
  payload_of, paint-payload, length-payload_of, payloads, handed_to, handed_to-append, calls,
  all_calls, handed_to-all_calls,
}

module _ {S : Type 0} (push : ℕ → List ℕ → S → Result (Option ℕ) × S) (pause : ℕ → S → S)
    (pace_ns : ℕ) (handed : S → List (ℕ × List ℕ))
    (logs : (d : ℕ) (bytes : List ℕ) (s : S)
      → (r : Option ℕ) × ((push d bytes s).0 ≡ ok r)
        × (handed (push d bytes s).1 ≡ handed s ++ (d, bytes) ∷ []))
    (still : (n : ℕ) (s : S) → handed (pause n s) ≡ handed s) (rank len : ℕ)
    (stamped_len : stamp ≤ len) where
  -- A part of the thread's work ends, and hands over `extra`.
  abbrev Hands :
      Outcome (Sender push pause pace_ns) → Sender push pause pace_ns → List (ℕ × List ℕ) → Type 0
  Hands o st extra =
      (st' : Sender push pause pace_ns) × (o ≡ done st')
      × (length st'.buf ≡ len)
      × (handed st'.rest ≡ handed st.rest ++ extra)

  sent-Hands :
      (d : ℕ) (buf : List ℕ) (st : Sender push pause pace_ns) (r : Option ℕ)
      (p : Result (Option ℕ) × S)
      → length buf ≡ len
      → p.0 ≡ ok r
      → handed p.1 ≡ handed st.rest ++ (d, buf) ∷ []
      → Hands (sent push pause pace_ns buf st p) st ((d, buf) ∷ [])
  sent-Hands d buf st r (ok none, s) e o h = (_, refl, e, h)
  sent-Hands d buf st r (ok (some ns), s) e o h = (_, refl, e, h)
  sent-Hands d buf st r (err x, s) e o h = cc
  sent-Hands d buf st r (panic, s) e o h = cc

  to_peer-Hands :
      (sequence d : ℕ) (st : Sender push pause pace_ns)
      → length st.buf ≡ len
      → Hands
          (to_peer push pause pace_ns rank sequence d st)
          st
          ((d, payload_of rank len sequence) ∷ [])
  unfolding to_peer
  to_peer-Hands sequence d st e =
      let buf = payload_of rank len sequence in
      let made : paint (pos rank) sequence st.buf ≡ done buf =
        paint-payload rank sequence st.buf (omega arith)
        ∙ ap (λ n. done (payload_of rank n sequence)) e in
      let (r, went, logged) = logs d buf st.rest in
      rw (to_peer, made)
        (sent-Hands d buf st r (push d buf st.rest)
          (length-payload_of rank len sequence stamped_len) went logged)

  -- One part after another.
  chain-Hands :
      (first : Outcome (Sender push pause pace_ns))
      (next : Sender push pause pace_ns → Outcome (Sender push pause pace_ns))
      (st : Sender push pause pace_ns) (xs ys : List (ℕ × List ℕ))
      → Hands first st xs
      → ((st' : Sender push pause pace_ns) → length st'.buf ≡ len → Hands (next st') st' ys)
      → Hands (first >>= next) st (xs ++ ys)
  chain-Hands first next st xs ys (st1, ran, sized, logged) later =
      let (st2, ran', sized', logged') = later st1 sized in
      (
        st2,
        ap (λ o. o >>= next) ran ∙ ran',
        sized',
        logged' ∙ ap (λ t. t ++ ys) logged ∙ append_assoc (handed st.rest) xs ys,
      )

  round-Hands :
      (sequence left d : ℕ) (st : Sender push pause pace_ns)
      → length st.buf ≡ len
      → Hands (round push pause pace_ns rank sequence left d st) st (calls rank len sequence left d)
  unfolding round calls
  round-Hands sequence zero d st e = (st, refl, e, sym (append-nil (handed st.rest)))
  round-Hands sequence (suc left) d st e = elim (Bool-cases (d == rank)) [
    | inl self ↦ rw (round, calls, self) (round-Hands sequence left (d + 1) st e)
    | inr peer ↦
        rw (round, calls, peer)
          (chain-Hands (to_peer push pause pace_ns rank sequence d st)
            (round push pause pace_ns rank sequence left (d + 1)) st
            ((d, payload_of rank len sequence) ∷ []) (calls rank len sequence left (d + 1))
            (to_peer-Hands sequence d st e) (λ st' e'. round-Hands sequence left (d + 1) st' e'))
  ]

  paced-Hands :
      (sequence : ℕ) (st : Sender push pause pace_ns)
      → (length (paced push pause pace_ns sequence st).buf ≡ length st.buf)
        × (handed (paced push pause pace_ns sequence st).rest ≡ handed st.rest)
  paced-Hands sequence st = elim (Bool-cases (ltb 0 pace_ns)) [
    | inl slow ↦ rw slow (refl, still (sequence % 2 ^ 32) st.rest)
    | inr flat ↦ rw flat (refl, refl)
  ]

  rounds-Hands :
      (size left sequence : ℕ) (st : Sender push pause pace_ns)
      → length st.buf ≡ len
      → Hands
          (rounds push pause pace_ns rank size left sequence st)
          st
          (all_calls rank len size left sequence)
  unfolding rounds all_calls
  rounds-Hands size zero sequence st e = (st, refl, e, sym (append-nil (handed st.rest)))
  rounds-Hands size (suc left) sequence st e =
      chain-Hands (round push pause pace_ns rank sequence size 0 st) _ st
        (calls rank len sequence size 0) (all_calls rank len size left (sequence + 1))
        (round-Hands sequence size 0 st e)
        (λ st' e'.
          let (sized, same) = paced-Hands sequence st' in
          let (st2, ran, kept, logged) =
            rounds-Hands size left (sequence + 1) (paced push pause pace_ns sequence st')
              (sized ∙ e') in
          (
            st2,
            ran,
            kept,
            logged ∙ ap (λ t. t ++ all_calls rank len size left (sequence + 1)) same,
          ))

  -- If every push ends with `Ok` and the pauses hand over nothing, over a buffer that holds a
  -- stamp: the rounds end without a panic, and each peer has then been handed one payload per
  -- round, in order, painted with this rank and the numbers from `sequence` on.
  pub rounds_hand :
      (size left sequence : ℕ) (st : Sender push pause pace_ns)
      → length st.buf ≡ len
      → (i : ℕ) → i < size
      → i ≢ rank
      → (st' : Sender push pause pace_ns) × (rounds push pause pace_ns rank size left sequence st
          ≡ done st')
        × (handed_to i (handed st'.rest)
            ≡ handed_to i (handed st.rest) ++ payloads rank len left sequence)
  rounds_hand size left sequence st e i inside other =
      let (st', ran, _, logged) = rounds-Hands size left sequence st e in
      (
        st',
        ran,
        ap (handed_to i) logged
            ∙ handed_to-append i (handed st.rest) (all_calls rank len size left sequence)
            ∙ ap (λ t. handed_to i (handed st.rest) ++ t)
                (handed_to-all_calls rank len size left sequence i inside other),
      )
