-- ===== src/Protocol/Network/Delivered.antt =====
-- A whole ring delivers: the layout's lanes satisfy what the calls on all lanes need.
use mpi_rma.Base.{ℕ, ◌<◌, ◌≡◌, ◌≢◌, ◌⊎◌, sym, inl, inr, some}
use mpi_rma.Base.{List, get_elem?, Option}
use native.Mathlib.Decide.{ℕ_discrete}
use mpi_rma.Mpi.{Mpi, Laws, Reliable}
use mpi_rma.Crc.{Crc}
use mpi_rma.Window.{Window}
use mpi_rma.Ring.Types.{Lane}
use mpi_rma.Ring.Layout.{Tables}
use mpi_rma.Ring.Layout.Sorting.{Spec}
use mpi_rma.Ring.Layout.Placement.{Apart}
use mpi_rma.Protocol.{Link}
use mpi_rma.Protocol.Delivery.{IsZeroed}
use mpi_rma.Protocol.Network.{Net, AreApart, NetReach, flow}
use mpi_rma.Protocol.Network.Runs.{AreLanes, Delivers, start_net, NetReach-Delivers}
use mpi_rma.Protocol.Network.Whole.{
  IsRing, links_of, links-Member, joined, two_ends-IsLink, two_ends-IsZeroed, receiver, sender,
}

module _ {m : Mpi} {ranks : ℕ} {config : List Spec} {tables : ℕ → Tables} {slots acks : ℕ → Window}
    {w : m.World} (ring : IsRing m ranks config tables slots acks w) where
  abbrev links : ℕ → ℕ → Option Link
  links = links_of slots acks ranks tables

  -- Two lanes into one rank do not overlap.
  slots-Apart :
      (a a' b : ℕ) (k j : Lane)
      → a < ranks
      → a' < ranks
      → b < ranks
      → get_elem? (tables a).to b ≡ some (some k)
      → get_elem? (tables a').to b ≡ some (some j)
      → a' ≢ a
      → Apart k j
  slots-Apart a a' b k j ha ha' hb e e' ne =
      let first = joined m ranks config tables slots acks w ring a b ha hb k e in
      let second = joined m ranks config tables slots acks w ring a' b ha' hb j e' in
      (receiver m ranks config tables slots acks w ring a b ha hb k e).apart a a' k j first.0
        second.0 (λ s. ne (sym s))

  -- Two lanes out of one rank have counters of their own.
  counters_apart :
      (a b b' : ℕ) (k j : Lane)
      → a < ranks
      → b < ranks
      → get_elem? (tables a).to b ≡ some (some k)
      → get_elem? (tables a).to b' ≡ some (some j)
      → b' ≢ b
      → k.ack ≢ j.ack
  counters_apart a b b' k j ha hb e e' ne =
      (sender m ranks config tables slots acks w ring a b ha hb k e).distinct b b' k j e e'
        (λ s. ne (sym s))

  links-AreApart :
      (a b a' b' : ℕ) (k j : Link)
      → links a b ≡ some k
      → links a' b' ≡ some j
      → (a' ≢ a) ⊎ (b' ≢ b)
      → AreApart k j
  links-AreApart a b a' b' k j e e' ne =
      let one = links-Member m ranks config tables slots acks w ring a b k e in
      let two = links-Member m ranks config tables slots acks w ring a' b' j e' in
      rw (one.shape, two.shape)
        (record {
          slots = elim (ℕ_discrete b' b) [
            | no away ↦ inr (inl away)
            | yes same ↦ inr (
                inr (
                  slots-Apart a a' b k.lane j.lane one.from_rank two.from_rank one.to_rank one.entry
                    (rw same at two.entry)
                    (elim ne [ inl away ↦ away | inr away ↦ absurd (away same) ])))
          ];
          separate = elim (ℕ_discrete a' a) [
            | no away ↦ inl away
            | yes same ↦ inr (
                counters_apart a b b' k.lane j.lane one.from_rank one.to_rank one.entry
                  (rw same at two.entry)
                  (elim ne [ inl away ↦ absurd (away same) | inr away ↦ away ]))
          ];
          slots_no_counter = ring.two_windows a' a;
          counters_no_slot = λ s. ring.two_windows a a' (sym s);
        })

  pub links-AreLanes : AreLanes links
  links-AreLanes = record {
    linked = λ a b k e.
        let one = links-Member m ranks config tables slots acks w ring a b k e in
        rw one.shape (
          two_ends-IsLink m ranks config tables slots acks w ring a b one.from_rank one.to_rank
            k.lane one.entry);
    apart = links-AreApart;
  }

  pub links-IsZeroed : (a b : ℕ) (k : Link) → links a b ≡ some k → IsZeroed m k w
  links-IsZeroed a b k e =
      let one = links-Member m ranks config tables slots acks w ring a b k e in
      rw one.shape (
        two_ends-IsZeroed m ranks config tables slots acks w ring a b one.from_rank one.to_rank
          k.lane one.entry)

  -- A safe ring whose ranks all accepted one lane list, over zeroed windows of the lengths that the
  -- layout computed and with a library that keeps its laws and does not fail: after every order of
  -- calls of `send` (of a payload that fits, before the sequence numbers run out), `poll` and `ack`
  -- on all its lanes, each lane's receiver has a prefix of what that lane was sent, each message
  -- once, in order and intact. At most `depth` of them are unacknowledged, none was lost or
  -- corrupt, and the lane's next poll succeeds and brings all the rest.
  pub ring-Delivers :
      (laws : Laws m) (reliable : Reliable m) (c : Crc) {n : Net m}
      → NetReach m c links (start_net m w) n
      → (a b : ℕ) (k : Link) → links a b ≡ some k
      → Delivers m c k (flow m n a b)
  ring-Delivers laws reliable c run =
      NetReach-Delivers m laws reliable c links-AreLanes w links-IsZeroed run
