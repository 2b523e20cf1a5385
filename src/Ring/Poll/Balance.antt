-- ===== src/Ring/Poll/Balance.antt =====
-- What a part of a poll does to the sums over all lanes.
use mpi_rma.Base.{
  ℕ, ◌+◌, ◌-◌, ◌%◌, ◌≤◌, ◌<◌, ◌≡◌, refl, ◌∙◌, ap, arith, some, length, slice, from_le, get_elem?,
  set, as_usize, word_mod, sum, sum-set, none, length-set, get_elem?-set_ne,
}
use mpi_rma.Mpi.{Mpi}
use mpi_rma.Window.{local}
use mpi_rma.Window.Bounds.{IsWindow}
use mpi_rma.Ring.Types.{word, Lane, Ring}
use mpi_rma.Ring.Regions.{IsPlaced, region}
use mpi_rma.Ring.Poll.{Cursor, Polling}
use mpi_rma.Ring.Poll.Accounting.{Accounts}

-- A ring with other counters.
abbrev pub counted_ring : Ring → ℕ → ℕ → ℕ → Ring
counted_ring r lost corrupt lag = record r { lost = lost; corrupt = corrupt; max_lag = lag }

module _ (m : Mpi) (w : m.World) where
  -- A ring whose lanes lie in its window, where no slot starts with the word 2^64 - 1.
  pub record Sound (r : Ring) : Type 0 where
    pub window : IsWindow m r.slots w
    pub total : ℕ
    pub own : get_elem? r.slots.lengths (as_usize r.slots.rank) ≡ some total
    pub lanes : (i : ℕ) (lane : Lane) → get_elem? r.from i ≡ some (some lane) → IsPlaced lane total
    pub heads :
        (i : ℕ) (lane : Lane) (p : ℕ)
        → get_elem? r.from i ≡ some (some lane)
        → p < lane.depth
        → from_le (slice 0 word (region lane p (local m r.slots w))) + 1 < word_mod

  -- From one point of a poll to a later one: the sequence numbers passed, on all lanes together,
  -- are the messages that came in and what was counted as lost.
  pub record Balanced (p q : Polling) : Type 0 where
    pub onward : sum p.seen ≤ sum q.seen
    pub more : length p.messages ≤ length q.messages
    pub balance :
        (q.ring.lost + (length q.messages - length p.messages)) % word_mod
        ≡ (p.ring.lost + (sum q.seen - sum p.seen)) % word_mod
    pub sound : Sound q.ring
    pub ranks : length q.seen ≡ length p.seen
    pub rest_kept : q.ring ≡ counted_ring p.ring q.ring.lost q.ring.corrupt q.ring.max_lag
    pub unused :
        (i : ℕ) → get_elem? p.ring.from i ≡ some none → get_elem? q.seen i ≡ get_elem? p.seen i

  pub refl-Balanced : (p : Polling) → Sound p.ring → Balanced p p
  refl-Balanced p s = record {
    onward = omega arith;
    more = omega arith;
    balance = omega arith;
    sound = s;
    ranks = refl;
    rest_kept = refl;
    unused = λ i e. refl;
  }

  pub trans-Balanced : (p q r : Polling) → Balanced p q → Balanced q r → Balanced p r
  trans-Balanced p q r a b = record {
    onward = omega (arith, a.onward, b.onward);
    more = omega (arith, a.more, b.more);
    balance = omega (arith, a.balance, b.balance, a.onward, b.onward, a.more, b.more);
    sound = b.sound;
    ranks = b.ranks ∙ a.ranks;
    rest_kept =
        b.rest_kept
        ∙ ap (λ t. counted_ring t r.ring.lost r.ring.corrupt r.ring.max_lag) a.rest_kept;
    unused = λ i e. b.unused i (ap (λ t. get_elem? t.from i) a.rest_kept ∙ e) ∙ a.unused i e;
  }

  -- A lane's loop, written back to a ring that is otherwise the same.
  pub written-Balanced :
      (p : Polling) (r : Ring) (i behind : ℕ) (lane : Lane) (s : Cursor)
      → get_elem? p.ring.from i ≡ some (some lane)
      → get_elem? p.seen i ≡ some behind
      → Accounts
          (record {
            seen = behind;
            lost = p.ring.lost;
            corrupt = p.ring.corrupt;
            messages = p.messages;
          })
          s
      → r.lost ≡ s.lost
      → r ≡ counted_ring p.ring r.lost r.corrupt r.max_lag
      → Sound r
      → Balanced p (record { ring = r; seen = set p.seen i s.seen; messages = s.messages })
  written-Balanced p r i behind lane s here at a lost same sound =
      let moved = sum-set p.seen i s.seen behind at in
      record {
        onward = omega (arith, moved, a.onward);
        more = a.more;
        balance = omega (arith, moved, a.onward, a.more, a.balance, lost);
        sound = sound;
        ranks = length-set p.seen i s.seen;
        rest_kept = same;
        unused = λ j e. get_elem?-set_ne p.seen s.seen (λ q. let other = rw q at here in cc);
      }

  pub same-Sound :
      (r : Ring) (lost corrupt lag : ℕ)
      → Sound r
      → Sound (record r { lost = lost; corrupt = corrupt; max_lag = lag })
  same-Sound r lost corrupt lag s = record {
    window = s.window;
    total = s.total;
    own = s.own;
    lanes = s.lanes;
    heads = s.heads;
  }
