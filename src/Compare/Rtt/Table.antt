-- ===== src/Compare/Rtt/Table.antt =====
-- `ring_rtt` over the two lanes of its ring: one turn of one rank.
use mpi_rma.Base.{
  ℕ, ◌+◌, ◌≤◌, ◌<◌, ◌≡◌, ◌≢◌, refl, sym, ◌∙◌, ap, arith, Bool, true, false, Option, some, List,
  length, word_mod, inl,
}
use mathlib.Core.Path.{subst}
use mpi_rma.Error.{Result}
use mpi_rma.Mpi.{Mpi, Laws, Reliable}
use mpi_rma.Crc.{Crc}
use mpi_rma.Ring.Types.{Message}
use mpi_rma.Protocol
use mpi_rma.Protocol.{
  Link, Flow, Step, sends, polls, acks, call_send, after_send, call_poll, call_ack,
}
use mpi_rma.Protocol.Network.{Net, NetInv, flow, with_flow, calls}
use mpi_rma.Protocol.Network.Runs.{
  AreLanes, flow-with_flow_self, flow-with_flow_other, NetStep-NetInv,
}
use mpi_rma.Compare.Rtt.{Side, sent_one, got_one, turn, turn_sends, turn_idles, turn_takes}
use mpi_rma.Compare.Rtt.Flows.{Counts, batch_of, idle_sends, idle_polls, full_polls, full_acks}

module _ (m : Mpi) (c : Crc) where
  -- The ring's calls on the lane from `a` to `b`.
  abbrev pub send_on : ℕ → ℕ → Link → List ℕ → Net m → Result ℕ × Net m
  send_on a b k bytes n =
      let f = flow m n a b in
      ((call_send m c k bytes f).0, with_flow m n a b (after_send m c k bytes f))

  abbrev pub poll_on : ℕ → ℕ → Link → Net m → Result (List Message) × Net m
  poll_on a b k n =
      let f = flow m n a b in
      (batch_of m c k f (call_poll m c k f).0, with_flow m n a b (Protocol.after_poll m c k f))

  abbrev pub ack_on : ℕ → ℕ → Link → ℕ → Net m → Result (Unit {0}) × Net m
  ack_on a b k q n =
      let f = flow m n a b in
      ((call_ack m c k q f).0, with_flow m n a b (Protocol.after_ack m c k q f))

  -- A turn of rank `a`, whose peer is `b`.
  abbrev pub rank_turn : Bool → ℕ → ℕ → (k j : Link) → List ℕ → Side → Net m → Side × Net m
  rank_turn first a b k j bytes = turn first (send_on a b k bytes) (poll_on b a j) (ack_on b a j)

-- A rank with `left` rounds left that was never refused.
abbrev pub SideIs : Side → ℕ → Bool → Type 0
SideIs s left awaiting =
    (s.left ≡ left) × (s.awaiting ≡ awaiting) × (s.refusals ≡ 0) × (s.broken ≡ false)

module _ (m : Mpi) (c : Crc) (links : ℕ → ℕ → Option Link) where
  -- All lanes keep their invariant; `out` is the lane from `a` to `b`, and `inn` the one back.
  pub record Point (n : Net m) (a b : ℕ) (sent seen acked sent' seen' acked' : ℕ) : Type 0 where
    pub inv : NetInv m c links n
    pub out : Counts m (flow m n a b) sent seen acked
    pub inn : Counts m (flow m n b a) sent' seen' acked'

  pub swapped :
      {n : Net m} {a b sent seen acked sent' seen' acked' : ℕ}
      → Point n a b sent seen acked sent' seen' acked'
      → Point n b a sent' seen' acked' sent seen acked
  swapped p = record { inv = p.inv; out = p.inn; inn = p.out }

module _ (m : Mpi) (laws : Laws m) (reliable : Reliable m) (c : Crc) {links : ℕ → ℕ → Option Link}
    (lanes : AreLanes links) (a b : ℕ) (other : a ≢ b) (k j : Link) (there : links a b ≡ some k)
    (back : links b a ≡ some j) (bytes : List ℕ) (fits : length bytes ≤ k.lane.capacity)
    (first : Bool) where
  -- A call on one of the two lanes leaves the other's counts.
  kept :
      (n : Net m) (x y : ℕ) (g : Flow m) (s v d : ℕ)
      → x ≢ y
      → Counts m (flow m n y x) s v d
      → Counts m (flow m (with_flow m n x y g) y x) s v d
  kept n x y g s v d ne h =
      subst (λ f. Counts m f s v d)
        (sym (flow-with_flow_other m n x y g y x (inl (λ e. ne (sym e)))))
        (record {
          sent_count = h.sent_count;
          seen_count = h.seen_count;
          acked_count = h.acked_count;
        })

  own :
      (n : Net m) (x y : ℕ) (g : Flow m) (s v d : ℕ)
      → Counts m g s v d
      → Counts m (flow m (with_flow m n x y g) x y) s v d
  own n x y g s v d h = subst (λ f. Counts m f s v d) (sym (flow-with_flow_self m n x y g)) h

  stepped :
      (n : Net m) (x y : ℕ) (l : Link) (g : Flow m)
      → links x y ≡ some l
      → Step m c l (flow m n x y) g
      → NetInv m c links n
      → NetInv m c links (with_flow m n x y g)
  stepped n x y l g here st inv =
      NetStep-NetInv m laws reliable c lanes (calls x y l here st refl) inv

  abbrev go : Side → Net m → Side × Net m
  go = rank_turn m c first a b k j bytes

  -- The send of an idle lane.
  pub sends_turn :
      (n : Net m) (side : Side) (i s v d left : ℕ)
      → Point m c links n a b i i i s v d
      → SideIs side (left + 1) false
      → i + 2 < word_mod
      → (n' : Net m) × (go side n ≡ (sent_one first side, n'))
        × Point m c links n' a b (i + 1) i i s v d
  sends_turn n side i s v d left p (l, w, r, o) room =
      let f = flow m n a b in
      let inv = p.inv.each a b k there in
      let link = lanes.linked a b k there in
      let (sent, counts) = idle_sends m laws reliable c link inv i bytes fits room p.out in
      let g = after_send m c k bytes f in
      let n' = with_flow m n a b g in
      (
        n',
        turn_sends first (send_on m c a b k bytes) (poll_on m c b a j) (ack_on m c b a j) side n
            left l o (i + 1) n' w (ap (λ x. (x, n')) sent),
        record {
          inv =
              stepped n a b k g there (sends bytes fits (omega (arith, p.out.sent_count)) refl)
                p.inv;
          out = own n a b g (i + 1) i i counts;
          inn = kept n a b g s v d other p.inn;
        },
      )

  pub idle_turn :
      (n : Net m) (side : Side) (i s v d left : ℕ)
      → Point m c links n a b s v d i i i
      → SideIs side (left + 1) true
      → (n' : Net m) × (go side n ≡ (side, n')) × Point m c links n' a b s v d i i i
  idle_turn n side i s v d left p (l, w, r, o) =
      let f = flow m n b a in
      let inv = p.inv.each b a j back in
      let link = lanes.linked b a j back in
      let (none_new, counts) = idle_polls m laws reliable c link inv i p.inn in
      let g = Protocol.after_poll m c j f in
      let n' = with_flow m n b a g in
      (
        n',
        turn_idles first (send_on m c a b k bytes) (poll_on m c b a j) (ack_on m c b a j) side n
            left l o n' w (ap (λ x. (x, n')) none_new),
        record {
          inv = stepped n b a j g back (polls refl) p.inv;
          out = kept n b a g s v d (λ e. other (sym e)) p.out;
          inn = own n b a g i i i counts;
        },
      )

  -- A message is there: it is taken and acknowledged.
  pub taking_turn :
      (n : Net m) (side : Side) (i s v d left : ℕ)
      → Point m c links n a b s v d (i + 1) i i
      → SideIs side (left + 1) true
      → (n' : Net m) × (go side n ≡ (got_one first (i + 1) side, n'))
        × Point m c links n' a b s v d (i + 1) (i + 1) (i + 1)
  taking_turn n side i s v d left p (l, w, r, o) =
      let f = flow m n b a in
      let inv = p.inv.each b a j back in
      let link = lanes.linked b a j back in
      let (x, got, number, counts) = full_polls m laws reliable c link inv i p.inn in
      let g = Protocol.after_poll m c j f in
      let n1 = with_flow m n b a g in
      let inv1 = stepped n b a j g back (polls refl) p.inv in
      let f1 = flow m n1 b a in
      let counts1 = own n b a g (i + 1) (i + 1) i counts in
      let (accepted, counts2) = full_acks m laws reliable c link (inv1.each b a j back) i counts1 in
      let h = Protocol.after_ack m c j (i + 1) f1 in
      let n2 = with_flow m n1 b a h in
      (
        n2,
        turn_takes first (send_on m c a b k bytes) (poll_on m c b a j) (ack_on m c b a j) side n
              left l o x n1 n2 w (ap (λ y. (y, n1)) got)
              (ap (λ q. ack_on m c b a j q n1) number ∙ ap (λ y. (y, n2)) accepted)
            ∙ ap (λ q. (got_one first q side, n2)) number,
        record {
          inv = stepped n1 b a j h back (acks (i + 1) refl) inv1;
          out =
              kept n1 b a h s v d (λ e. other (sym e))
                (kept n b a g s v d (λ e. other (sym e)) p.out);
          inn = own n1 b a h (i + 1) (i + 1) (i + 1) counts2;
        },
      )
