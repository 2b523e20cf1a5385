-- ===== src/Compare/Rtt/Moves.antt =====
-- `ring_rtt` on both ranks: what one turn changes.
use mpi_rma.Base.{
  ℕ, zero, suc, ◌+◌, ◌-◌, ◌*◌, ◌≤◌, ◌<◌, ◌≡◌, ◌≢◌, refl, sym, arith, true, false, Option, some,
  List, length, word_mod,
}
use mathlib.Core.Path.{subst}
use mpi_rma.Mpi.{Mpi, Laws, Reliable}
use mpi_rma.Crc.{Crc}
use mpi_rma.Protocol.{Link}
use mpi_rma.Protocol.Network.{Net}
use mpi_rma.Protocol.Network.Runs.{AreLanes}
use mpi_rma.Compare.Rtt.{Side, sent_one, got_one, turn_over}
use mpi_rma.Compare.Rtt.Table.{
  swapped, rank_turn, send_on, poll_on, ack_on, sends_turn, idle_turn, taking_turn,
}
use mpi_rma.Compare.Rtt.Stages.{Table, step_one, step_two, Stage, idle, ping, got, pong, Within}

module _ (m : Mpi) (laws : Laws m) (reliable : Reliable m) (c : Crc) {links : ℕ → ℕ → Option Link}
    (lanes : AreLanes links) (k j : Link) (there : links 0 1 ≡ some k) (back : links 1 0 ≡ some j)
    (bytes : List ℕ) (fits : length bytes ≤ k.lane.capacity)
    (fits' : length bytes ≤ j.lane.capacity) (total : ℕ) (room : total + 2 < word_mod) where
  abbrev pub turn_one : Table m → Table m
  turn_one = step_one m c k j bytes

  abbrev pub turn_two : Table m → Table m
  turn_two = step_two m c k j bytes

  abbrev pub Bounded : Table m → ℕ → Type 0
  Bounded = Within m c links total

  one_ne : ◌≢◌ {A = ℕ} 0 1
  one_ne e = omega arith

  two_ne : ◌≢◌ {A = ℕ} 1 0
  two_ne e = omega arith

  -- The table after a turn whose outcome is known.
  after_one :
      (P : Table m → Type 0) (t : Table m) (side : Side) (n : Net m)
      → rank_turn m c true 0 1 k j bytes t.one t.net ≡ (side, n)
      → P (record { net = n; one = side; two = t.two })
      → P (turn_one t)
  after_one P t side n e h = subst (λ r. P (record { net = r.1; one = r.0; two = t.two })) (sym e) h

  after_two :
      (P : Table m → Type 0) (t : Table m) (side : Side) (n : Net m)
      → rank_turn m c false 1 0 j k bytes t.two t.net ≡ (side, n)
      → P (record { net = n; one = t.one; two = side })
      → P (turn_two t)
  after_two P t side n e h = subst (λ r. P (record { net = r.1; one = t.one; two = r.0 })) (sym e) h

  -- A turn of the rank whose turn it is brings the end nearer.
  pub one_moves :
      (t : Table m) (need : ℕ) → Stage m c links total t need true → Bounded (turn_one t) (need - 1)
  one_moves t need (idle r zero sum e p s q) =
      after_one (λ x. Bounded x (need - 1)) t t.one t.net
        (turn_over true (send_on m c 0 1 k bytes) (poll_on m c 1 0 j) (ack_on m c 1 0 j) t.one t.net
          s.0)
        (record { need = need; first = true; stage = idle r 0 sum e p s q; near = omega arith })
  one_moves t need (idle r (suc left) sum e p s q) =
      let (n, went, p') =
        sends_turn m laws reliable c lanes 0 1 one_ne k j there back bytes fits true t.net t.one r r
          r r left p (omega (arith, s.0), s.1, s.2, s.3) (omega arith) in
      after_one (λ x. Bounded x (need - 1)) t (sent_one true t.one) n went
        (record {
          need = 4 * left + 3;
          first = false;
          stage =
              ping r left (omega arith) refl p' (omega (arith, s.0), refl, s.2, s.3)
                (omega (arith, q.0), q.1, q.2, q.3);
          near = omega arith;
        })
  one_moves t need (pong r left sum e p s q) =
      let (n, went, p') =
        taking_turn m laws reliable c lanes 0 1 one_ne k j there back bytes fits true t.net t.one r
          (r + 1) (r + 1) (r + 1) left p s in
      after_one (λ x. Bounded x (need - 1)) t (got_one true (r + 1) t.one) n went
        (record {
          need = 4 * left;
          first = true;
          stage = idle (r + 1) left (omega arith) refl p' (omega (arith, s.0), refl, s.2, s.3) q;
          near = omega arith;
        })

  pub two_moves :
      (t : Table m) (need : ℕ)
      → Stage m c links total t need false
      → Bounded (turn_two t) (need - 1)
  two_moves t need (ping r left sum e p s q) =
      let (n, went, p') =
        taking_turn m laws reliable c lanes 1 0 two_ne j k back there bytes fits' false t.net t.two
          r r r r left (swapped m c links p) q in
      after_two (λ x. Bounded x (need - 1)) t (got_one false (r + 1) t.two) n went
        (record {
          need = 4 * left + 2;
          first = false;
          stage = got r left sum refl (swapped m c links p') s (q.0, refl, q.2, q.3);
          near = omega arith;
        })
  two_moves t need (got r left sum e p s q) =
      let (n, went, p') =
        sends_turn m laws reliable c lanes 1 0 two_ne j k back there bytes fits' false t.net t.two r
          (r + 1) (r + 1) (r + 1) left (swapped m c links p) q (omega arith) in
      after_two (λ x. Bounded x (need - 1)) t (sent_one false t.two) n went
        (record {
          need = 4 * left + 1;
          first = true;
          stage =
              pong r left sum refl (swapped m c links p') s (omega (arith, q.0), refl, q.2, q.3);
          near = omega arith;
        })

  -- A turn of the other rank finds nothing.
  pub one_waits :
      (t : Table m) (need : ℕ)
      → Stage m c links total t need false
      → Stage m c links total (turn_one t) need false
  one_waits t need (ping r left sum e p s q) =
      let (n, went, p') =
        idle_turn m laws reliable c lanes 0 1 one_ne k j there back bytes fits true t.net t.one r
          (r + 1) r r left p s in
      after_one (λ x. Stage m c links total x need false) t t.one n went (ping r left sum e p' s q)
  one_waits t need (got r left sum e p s q) =
      let (n, went, p') =
        idle_turn m laws reliable c lanes 0 1 one_ne k j there back bytes fits true t.net t.one r
          (r + 1) (r + 1) (r + 1) left p s in
      after_one (λ x. Stage m c links total x need false) t t.one n went (got r left sum e p' s q)

  two_over :
      (t : Table m)
      → t.two.left ≡ 0
      → rank_turn m c false 1 0 j k bytes t.two t.net ≡ (t.two, t.net)
  two_over t e =
      turn_over false (send_on m c 1 0 j bytes) (poll_on m c 0 1 k) (ack_on m c 0 1 k) t.two t.net e

  pub two_waits :
      (t : Table m) (need : ℕ)
      → Stage m c links total t need true
      → Stage m c links total (turn_two t) need true
  two_waits t need (idle r zero sum e p s q) =
      after_two (λ x. Stage m c links total x need true) t t.two t.net (two_over t q.0)
        (idle r 0 sum e p s q)
  two_waits t need (idle r (suc left) sum e p s q) =
      let (n, went, p') =
        idle_turn m laws reliable c lanes 1 0 two_ne j k back there bytes fits' false t.net t.two r
          r r r left (swapped m c links p) (omega (arith, q.0), q.1, q.2, q.3) in
      after_two (λ x. Stage m c links total x need true) t t.two n went
        (idle r (suc left) sum e (swapped m c links p') s q)
  two_waits t need (pong r zero sum e p s q) =
      after_two (λ x. Stage m c links total x need true) t t.two t.net (two_over t q.0)
        (pong r 0 sum e p s q)
  two_waits t need (pong r (suc left) sum e p s q) =
      let (n, went, p') =
        idle_turn m laws reliable c lanes 1 0 two_ne j k back there bytes fits' false t.net t.two
          (r + 1) (r + 1) r r left (swapped m c links p) (omega (arith, q.0), q.1, q.2, q.3) in
      after_two (λ x. Stage m c links total x need true) t t.two n went
        (pong r (suc left) sum e (swapped m c links p') s q)
