-- ===== src/Ring/Poll/Results.antt =====
-- What a successful `poll` returns and leaves, from the loop over the lanes.
use mpi_rma.Base.{◌≡◌, ap, false, List, [], inl, inr, Bool-cases}
use mpi_rma.Error.{Result, ok, err, panic}
use mpi_rma.Mpi.{Mpi}
use mpi_rma.Crc.{Crc}
use mpi_rma.Ring.Types.{Message, Ring}
use mpi_rma.Ring.Poll.{Polling, poll_lanes, poll, finished}

module _ (m : Mpi) (c : Crc) (w : m.World) where
  finished_ok :
      (q : Result (Unit {0}) × Polling) (ms : List Message) (r' : Ring)
      → finished q ≡ (ok ms, r')
      → (q.1.messages ≡ ms)
        × (q.1.seen ≡ r'.seen.value)
        × (record q.1.ring { seen = record { poisoned = false; value = q.1.seen } } ≡ r')
  finished_ok (ok _, p) ms r' e =
      let first : ok p.messages ≡ ok ms = ap (λ x. x.0) e in
      (cc, ap (λ x. x.1.seen.value) e, ap (λ x. x.1) e)
  finished_ok (err x, p) ms r' e =
      let first : ◌≡◌ {A = Result (List Message)} (err x) (ok ms) = ap (λ y. y.0) e in cc
  finished_ok (panic, p) ms r' e =
      let first : ◌≡◌ {A = Result (List Message)} panic (ok ms) = ap (λ y. y.0) e in cc

  -- What a successful poll returns and leaves.
  pub polled :
      (r : Ring) (ms : List Message) (r' : Ring)
      → poll m c r w ≡ (ok ms, r')
      → let p =
          (poll_lanes m c w r.incoming
            (record { ring = r; seen = r.seen.value; messages = [] })).1 in
        (p.messages ≡ ms)
        × (p.seen ≡ r'.seen.value)
        × (record p.ring { seen = record { poisoned = false; value = p.seen } } ≡ r')
  unfolding poll
  polled r ms r' e = elim (Bool-cases r.seen.poisoned) [
    | inl bad ↦ let first = ap (λ y. y.0) (rw (poll, bad) at e) in cc
    | inr clean ↦
        finished_ok
          (poll_lanes m c w r.incoming (record { ring = r; seen = r.seen.value; messages = [] })) ms
          r' (rw (poll, clean) at e)
  ]
