-- ===== src/Soak/Poller/Turns.antt =====
-- The poller thread's whole run over a ring with any content: what it has counted when it ends.
use mpi_rma.Base.{
  ℕ, ◌+◌, ◌-◌, ◌%◌, ◌≤◌, ◌≡◌, refl, sym, ◌∙◌, ap, arith, Bool, some, none, List, [], ◌∷◌, ℤ, length,
  get_elem?, word_mod, sum, inl, inr,
}
use mpi_rma.Error.{ok, Result-cases}
use mpi_rma.Mpi.{Mpi, Laws}
use mpi_rma.Crc.{Crc}
use mpi_rma.Ring.Types.{Message}
use mpi_rma.Ring.Poll.{poll}
use mpi_rma.Ring.Poll.Ledger.{poll_accounts}
use mpi_rma.Soak.{Outcome, done, failed, panicked, done-bind, Outcome-cases}
use mpi_rma.Soak.Poller.{Batch, check_batch, ack_all, handle}
use mpi_rma.Soak.Poller.Checks.{check_batch_intact}
use mpi_rma.Soak.Poller.Polls.{poll_passes}
use mpi_rma.Soak.Poller.Live.{
  Live, poll_live, ack_live, Healthy, Keeps, poll-Healthy, ack-Keeps, Healthy-Ready,
}

module _ (m : Mpi) (laws : Laws m) (c : Crc) (safe : Bool)
    (order : List (ℤ × ℕ) → List (ℤ × ℕ)) where
  abbrev pub barrier_of : Live m → Bool
  barrier_of s = s.barrier

  pub refl-Keeps : (s : Live m) → Healthy m safe s → Keeps m safe s s
  refl-Keeps s h = record { healthy = h; seen = refl; lost = refl; lanes = refl }

  trans-Keeps : (s t u : Live m) → Keeps m safe s t → Keeps m safe t u → Keeps m safe s u
  trans-Keeps s t u a b = record {
    healthy = b.healthy;
    seen = b.seen ∙ a.seen;
    lost = b.lost ∙ a.lost;
    lanes = b.lanes ∙ a.lanes;
  }

  abbrev acks : List (ℤ × ℕ) → Live m → Outcome (Unit {0}) × Live m
  acks xs s = ack_all safe (poll_live m c) (ack_live m) barrier_of order xs s

  ack_all-Keeps :
      (xs : List (ℤ × ℕ)) (s : Live m)
      → Healthy m safe s
      → (acks xs s).0 ≡ done tt
      → Keeps m safe s (acks xs s).1
  unfolding ack_all
  ack_all-Keeps [] s h e = refl-Keeps s h
  ack_all-Keeps ((origin, sequence) ∷ rest) s h e =
      elim (Result-cases (ack_live m origin sequence s).0) [
        | inr (inl (x, q)) ↦
            let bad : ◌≡◌ {A = Outcome (Unit {0})} (failed _) (done tt) = rw (ack_all, q) at e in cc
        | inr (inr q) ↦
            let bad : ◌≡◌ {A = Outcome (Unit {0})} panicked (done tt) = rw (ack_all, q) at e in cc
        | inl (u, q) ↦
            let s1 = (ack_live m origin sequence s).1 in
            let first = ack-Keeps m laws safe origin sequence s h q in
            let later = ack_all-Keeps rest s1 first.healthy (rw (ack_all, q) at e) in
            rw (ack_all, q) (trans-Keeps s s1 _ first later)
      ]

  -- What a part of the run leaves: the thread has seen what the ring has, and what it counted and
  -- what the ring counted as lost are the sequence numbers that were passed.
  pub record Balances (s t : Live m) (seen seen' : List ℕ) (total total' : ℕ) : Type 0 where
    pub healthy : Healthy m safe t
    pub same : seen' ≡ t.ring.seen.value
    pub onward : sum seen ≤ sum seen'
    pub balance :
        (t.ring.lost + total') % word_mod
        ≡ (s.ring.lost + total + (sum seen' - sum seen)) % word_mod
    pub ranks : length seen' ≡ length seen
    pub lanes : t.ring.from ≡ s.ring.from
    pub unused :
        (i : ℕ) → get_elem? s.ring.from i ≡ some none → get_elem? seen' i ≡ get_elem? seen i

  pub trans-Balances :
      (s t u : Live m) (xs ys zs : List ℕ) (a b n : ℕ)
      → Balances s t xs ys a b
      → Balances t u ys zs b n
      → Balances s u xs zs a n
  trans-Balances s t u xs ys zs a b n p q = record {
    healthy = q.healthy;
    same = q.same;
    onward = omega (arith, p.onward, q.onward);
    balance = omega (arith, p.balance, q.balance, p.onward, q.onward);
    ranks = q.ranks ∙ p.ranks;
    lanes = q.lanes ∙ p.lanes;
    unused = λ i e. q.unused i (ap (λ l. get_elem? l i) p.lanes ∙ e) ∙ p.unused i e;
  }

  -- What the other threads do keeps the account.
  pub others-Balances :
      (s t : Live m) (seen : List ℕ) (total : ℕ)
      → seen ≡ s.ring.seen.value
      → Keeps m safe s t
      → Balances s t seen seen total total
  others-Balances s t seen total same k = record {
    healthy = k.healthy;
    same = same ∙ ap (λ x. x.value) (sym k.seen);
    onward = omega arith;
    balance = omega (arith, k.lost);
    ranks = refl;
    lanes = k.lanes;
    unused = λ i e. refl;
  }

  abbrev pub handled : List Message → List ℕ → ℕ → Live m → Outcome Batch × Live m
  handled batch seen total s =
      handle safe (poll_live m c) (ack_live m) barrier_of order batch seen total s

  abbrev fresh : List ℕ → ℕ → Batch
  fresh seen total = record { seen = seen; total = total; furthest = [] }

  handled-done :
      (batch : List Message) (seen : List ℕ) (total : ℕ) (s : Live m) (b : Batch)
      → Healthy m safe s
      → (handled batch seen total s).0 ≡ done b
      → (check_batch safe batch (fresh seen total) ≡ done b)
        × Keeps m safe s (handled batch seen total s).1
  unfolding handle
  handled-done batch seen total s b h e =
      elim (Outcome-cases (check_batch safe batch (fresh seen total))) [
        | inr (inl (x, q)) ↦
            let bad : ◌≡◌ {A = Outcome Batch} (failed x) (done b) = rw (handle, q) at e in cc
        | inr (inr q) ↦
            let bad : ◌≡◌ {A = Outcome Batch} panicked (done b) = rw (handle, q) at e in cc
        | inl (b', q) ↦
            let (u, went, same) =
              done-bind (acks (order b'.furthest) s).0 (λ _. done b') b (rw (handle, q) at e) in
            (q ∙ same, rw (handle, q) (ack_all-Keeps (order b'.furthest) s h went))
      ]

  -- One turn that the thread survives.
  pub turn-Balances :
      (s : Live m) (seen : List ℕ) (total : ℕ) (batch : List Message) (b : Batch)
      → Healthy m safe s
      → seen ≡ s.ring.seen.value
      → (poll_live m c s).0 ≡ ok batch
      → (handled batch seen total (poll_live m c s).1).0 ≡ done b
      → Balances s (handled batch seen total (poll_live m c s).1).1 seen b.seen total b.total
  turn-Balances s seen total batch b h same polled checked =
      let r' = (poll m c s.ring s.world).1 in
      let call : poll m c s.ring s.world ≡ (ok batch, r') = ap (λ x. (x, r')) polled in
      let (healthy, from) = poll-Healthy m c safe s batch r' h call in
      let (passed, k) = handled-done batch seen total _ b healthy checked in
      let (onward, balance, ranks, unused) =
        poll_accounts m s.world c s.ring r' batch h.sound call in
      let (b', ran, now, counted) =
        poll_passes m c s.world safe s.ring batch r' (fresh seen total) (Healthy-Ready m c safe s h)
          call (check_batch_intact safe batch (fresh seen total) b passed) same in
      let equal : b' ≡ b = cc (ran, passed) in
      let sums : sum b.seen ≡ sum r'.seen.value = ap (λ x. sum x.seen) (sym equal) ∙ ap sum now in
      let totals : b'.total ≡ b.total = ap (λ x. x.total) equal in
      let reached = ap (λ x. x.seen) (sym equal) ∙ now in
      record {
        healthy = k.healthy;
        same = reached ∙ ap (λ x. x.value) (sym k.seen);
        onward = omega (arith, onward, sums, ap sum same);
        balance = omega (arith, balance, k.lost, counted, totals, sums, onward, ap sum same);
        ranks = ap length reached ∙ ranks ∙ ap length (sym same);
        lanes = k.lanes ∙ from;
        unused = λ i e.
            ap (λ xs. get_elem? xs i) reached ∙ unused i e ∙ ap (λ xs. get_elem? xs i) (sym same);
      }
