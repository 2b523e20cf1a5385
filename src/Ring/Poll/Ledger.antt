-- ===== src/Ring/Poll/Ledger.antt =====
-- A poll of all lanes, over windows with any bytes whatever: no sequence number goes missing.
use mpi_rma.Base.{
  ℕ, ◌+◌, ◌-◌, ◌%◌, ◌≤◌, ◌≡◌, refl, sym, ◌∙◌, ap, arith, some, List, [], ◌∷◌, ℤ, length, get_elem?,
  as_usize, word_mod, sum, Option-cases, inl, inr, sub_word, max, none,
}
use mathlib.Core.Path.{subst}
use mpi_rma.Error.{Result, ok, err, panic}
use mpi_rma.Action.{Action, and_then}
use mpi_rma.Mpi.{Mpi}
use mpi_rma.Crc.{Crc}
use mpi_rma.Ring.Types.{Message, Lane, Ring, is_safe}
use mpi_rma.Ring.Poll.{Cursor, Polling, lane_done, poll_lane, poll_lanes, poll}
use mpi_rma.Ring.Poll.Results.{polled}
use mpi_rma.Ring.Poll.Accounting.{Accounts, drain-Accounts}
use mpi_rma.Ring.Poll.Balance.{
  Sound, Balanced, refl-Balanced, trans-Balanced, written-Balanced, same-Sound,
}

module _ (m : Mpi) (w : m.World) (c : Crc) where
  done-Balanced :
      (p : Polling) (i behind : ℕ) (lane : Lane) (res : Result (Unit {0})) (s : Cursor)
      → get_elem? p.ring.from i ≡ some (some lane)
      → get_elem? p.seen i ≡ some behind
      → Accounts
          (record {
            seen = behind;
            lost = p.ring.lost;
            corrupt = p.ring.corrupt;
            messages = p.messages;
          })
          s
      → Sound m w p.ring
      → Balanced m w p (lane_done p i behind (res, s)).1
  done-Balanced p i behind lane (ok _) s here at a sound =
      written-Balanced m w p _ i behind lane s here at a refl refl
        (same-Sound m w p.ring s.lost s.corrupt (max p.ring.max_lag (sub_word s.seen behind)) sound)
  done-Balanced p i behind lane (err e) s here at a sound =
      written-Balanced m w p _ i behind lane s here at a refl refl
        (same-Sound m w p.ring s.lost s.corrupt p.ring.max_lag sound)
  done-Balanced p i behind lane panic s here at a sound =
      written-Balanced m w p _ i behind lane s here at a refl refl
        (same-Sound m w p.ring s.lost s.corrupt p.ring.max_lag sound)

  lane-Balanced :
      (origin : ℤ) (p : Polling) → Sound m w p.ring → Balanced m w p (poll_lane m c w origin p).1
  unfolding poll_lane
  lane-Balanced origin p sound = elim (Option-cases (get_elem? p.ring.from (as_usize origin))) [
    | inl outside ↦ rw (poll_lane, outside) (refl-Balanced m w p sound)
    | inr (there, found) ↦ elim (Option-cases there) [
      | inl empty ↦ rw (poll_lane, found, empty) (refl-Balanced m w p sound)
      | inr (lane, full) ↦ elim (Option-cases (get_elem? p.seen (as_usize origin))) [
        | inl gone ↦ rw (poll_lane, found, full, gone) (refl-Balanced m w p sound)
        | inr (behind, at) ↦
            let here = found ∙ ap some full in
            let i = as_usize origin in
            rw (poll_lane, found, full, at)
              (done-Balanced p i behind lane _ _ here at
                (drain-Accounts m c sound.window sound.own (sound.lanes i lane here)
                  (is_safe p.ring) origin (λ q h. sound.heads i lane q here h) lane.depth
                  (record {
                    seen = behind;
                    lost = p.ring.lost;
                    corrupt = p.ring.corrupt;
                    messages = p.messages;
                  }))
                sound)
      ]
    ]
  ]

  and_then-Balanced :
      (p : Polling) (r : Result (Unit {0}) × Polling) (next : Action Polling (Unit {0}))
      → Balanced m w p r.1
      → ((q : Polling) → Sound m w q.ring → Balanced m w q (next q).1)
      → Balanced m w p (and_then r (λ _ q. next q)).1
  and_then-Balanced p (ok a, q) next t later = trans-Balanced m w p q (next q).1 t (later q t.sound)
  and_then-Balanced p (err e, q) next t later = t
  and_then-Balanced p (panic, q) next t later = t

  lanes-Balanced :
      (origins : List ℤ) (p : Polling)
      → Sound m w p.ring
      → Balanced m w p (poll_lanes m c w origins p).1
  unfolding poll_lanes
  lanes-Balanced [] p sound = refl-Balanced m w p sound
  lanes-Balanced (origin ∷ rest) p sound =
      and_then-Balanced p (poll_lane m c w origin p) (poll_lanes m c w rest)
        (lane-Balanced origin p sound) (λ q. lanes-Balanced rest q)

  -- A successful poll of all lanes, over windows that hold any bytes, where lanes lie in the ring's
  -- window and no slot starts with the word 2^64 - 1: the sequence numbers that the ring passed, of
  -- all ranks together, are the messages returned and those newly counted as lost, modulo 2^64. The
  -- cursor of a rank without a lane stays.
  pub poll_accounts :
      (r r' : Ring) (ms : List Message)
      → Sound m w r
      → poll m c r w ≡ (ok ms, r')
      → (sum r.seen.value ≤ sum r'.seen.value)
        × ((r'.lost + length ms) % word_mod
            ≡ (r.lost + (sum r'.seen.value - sum r.seen.value)) % word_mod)
        × (length r'.seen.value ≡ length r.seen.value)
        × ((i : ℕ)
            → get_elem? r.from i ≡ some none
            → get_elem? r'.seen.value i ≡ get_elem? r.seen.value i)
  poll_accounts r r' ms sound e =
      let p : Polling = record { ring = r; seen = r.seen.value; messages = [] } in
      let b = lanes-Balanced r.incoming p sound in
      let (all, now, same) = polled m c w r ms r' e in
      let lost = ap (λ t. t.lost) same in
      (
        rw now at b.onward,
        omega (arith, b.balance, lost, ap length all, ap sum now),
        ap length (sym now) ∙ b.ranks,
        λ i h. ap (λ xs. get_elem? xs i) (sym now) ∙ b.unused i h,
      )

  -- A successful poll keeps the ring sound.
  pub poll-Sound :
      (r r' : Ring) (ms : List Message)
      → Sound m w r
      → poll m c r w ≡ (ok ms, r')
      → Sound m w r' × (r'.from ≡ r.from) × (r'.acks ≡ r.acks) × (r'.slots ≡ r.slots)
  poll-Sound r r' ms sound e =
      let b =
        lanes-Balanced r.incoming (record { ring = r; seen = r.seen.value; messages = [] }) sound in
      let (_, _, same) = polled m c w r ms r' e in
      let s = b.sound in
      let kept : Sound m w _ = record {
        window = s.window;
        total = s.total;
        own = s.own;
        lanes = s.lanes;
        heads = s.heads;
      } in
      (
        subst (Sound m w) same kept,
        ap (λ t. t.from) (sym same) ∙ ap (λ t. t.from) b.rest_kept,
        ap (λ t. t.acks) (sym same) ∙ ap (λ t. t.acks) b.rest_kept,
        ap (λ t. t.slots) (sym same) ∙ ap (λ t. t.slots) b.rest_kept,
      )
