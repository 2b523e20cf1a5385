-- ===== src/Soak/Poller/Whole.antt =====
-- The poller thread from its first turn to its last.
use mpi_rma.Base.{
  ℕ, ◌≡◌, Bool, some, none, List, [], ◌∷◌, ℤ, All, Option, inl, inr, ◌⊎◌, Bool-cases, ◌&&◌,
}
use mpi_rma.Error.{ok, Result-cases}
use mpi_rma.Mpi.{Mpi, Laws}
use mpi_rma.Crc.{Crc}
use mpi_rma.Ring.Types.{Message}
use mpi_rma.Soak.{Outcome, done, failed, panicked, Outcome-cases}
use mpi_rma.Soak.Poller.{Batch, run, is_empty}
use mpi_rma.Soak.Poller.Live.{Live, poll_live, ack_live, Healthy, Keeps}
use mpi_rma.Soak.Poller.Turns.{
  Balances, trans-Balances, others-Balances, turn-Balances, handled, barrier_of,
}

module _ (m : Mpi) (laws : Laws m) (c : Crc) (safe : Bool)
    (order : List (ℤ × ℕ) → List (ℤ × ℕ)) where
  -- The other threads never touch the receiving side of the ring.
  abbrev pub Harmless : List (Live m → Live m) → Type 0
  Harmless schedule = All (λ o. (s : Live m) → Healthy m safe s → Keeps m safe s (o s)) schedule

  abbrev pub polling :
      List (Live m → Live m) → List ℕ → ℕ → Live m → Option (Outcome (List ℕ × ℕ) × Live m)
  polling = run safe (poll_live m c) (ack_live m) (barrier_of m laws c safe order) order

  abbrev Ended : Type 0
  Ended = Option (Outcome (List ℕ × ℕ) × Live m)

  abbrev hand : List Message → List ℕ → ℕ → Live m → Outcome Batch × Live m
  hand = handled m laws c safe order

  -- One turn's end: the thread is done, or the rest of the run goes on.
  polling-turn :
      (o : Live m → Live m) (rest : List (Live m → Live m)) (seen : List ℕ) (total : ℕ) (s : Live m)
      (seen' : List ℕ) (total' : ℕ) (t : Live m)
      → polling (o ∷ rest) seen total s ≡ some (done (seen', total'), t)
      → (batch : List Message) × ((poll_live m c s).0 ≡ ok batch)
        × (b : Batch) × ((hand batch seen total (poll_live m c s).1).0 ≡ done b)
        × (((b.seen ≡ seen')
              × (b.total ≡ total')
              × ((hand batch seen total (poll_live m c s).1).1 ≡ t))
            ⊎ (polling rest b.seen b.total (o (hand batch seen total (poll_live m c s).1).1)
                ≡ some (done (seen', total'), t)))
  unfolding run
  polling-turn o rest seen total s seen' total' t e = elim (Result-cases (poll_live m c s).0) [
    | inr (inl (x, q)) ↦
        let bad : ◌≡◌ {A = Ended} (some (failed _, _)) (some (done _, t)) = rw (run, q) at e in cc
    | inr (inr q) ↦
        let bad : ◌≡◌ {A = Ended} (some (panicked, _)) (some (done _, t)) = rw (run, q) at e in cc
    | inl (batch, q) ↦
        let s1 = (poll_live m c s).1 in
        elim (Outcome-cases (hand batch seen total s1).0) [
          | inr (inl (x, h)) ↦
              let bad : ◌≡◌ {A = Ended} (some (failed _, _)) (some (done _, t)) =
                rw (run, q, h) at e in
              cc
          | inr (inr h) ↦
              let bad : ◌≡◌ {A = Ended} (some (panicked, _)) (some (done _, t)) =
                rw (run, q, h) at e in
              cc
          | inl (b, h) ↦ elim (Bool-cases (s.barrier && is_empty batch)) [
            | inl over ↦
                let last : ◌≡◌ {A = Ended}
                    (some (done (b.seen, b.total), (hand batch seen total s1).1))
                    (some (done (seen', total'), t)) =
                  rw (run, q, h, over) at e in
                (batch, q, b, h, inl (cc, cc, cc))
            | inr more ↦ (batch, q, b, h, inr (rw (run, q, h, more) at e))
          ]
        ]
  ]

  -- However the run ended, if it ended well: what it counted and what the ring counted as lost are
  -- the sequence numbers that the ring passed.
  pub polling-Balances :
      (schedule : List (Live m → Live m)) (seen : List ℕ) (total : ℕ) (s : Live m) (seen' : List ℕ)
      (total' : ℕ) (t : Live m)
      → Harmless schedule
      → Healthy m safe s
      → seen ≡ s.ring.seen.value
      → polling schedule seen total s ≡ some (done (seen', total'), t)
      → Balances m laws c safe order s t seen seen' total total'
  unfolding run
  polling-Balances [] seen total s seen' total' t safe_others h same e =
      let bad : ◌≡◌ {A = Ended} none (some (done (seen', total'), t)) = e in cc
  polling-Balances (o ∷ rest) seen total s seen' total' t safe_others h same e =
      let (batch, polled, b, checked, next) = polling-turn o rest seen total s seen' total' t e in
      let u = (hand batch seen total (poll_live m c s).1).1 in
      let turn = turn-Balances m laws c safe order s seen total batch b h same polled checked in
      elim next [
        | inl (now, count, stop) ↦ rw (← now, ← count, ← stop) turn
        | inr more ↦
            let between =
              others-Balances m laws c safe order u (o u) b.seen b.total turn.same
                (safe_others.0 u turn.healthy) in
            let later =
              polling-Balances rest b.seen b.total (o u) seen' total' t safe_others.1
                between.healthy between.same more in
            trans-Balances m laws c safe order s (o u) t seen b.seen seen' total b.total total'
              (trans-Balances m laws c safe order s u (o u) seen b.seen b.seen total b.total b.total
                turn between)
              later
      ]
