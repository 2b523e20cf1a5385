-- ===== src/Ring/Poll/Accounting.antt =====
-- The whole loop of `poll` on a lane, over a window with any bytes whatever.
use mpi_rma.Base.{
  ℕ, ◌+◌, ◌-◌, ◌%◌, ◌≤◌, ◌<◌, ◌≡◌, ap, arith, Bool, some, List, [], ◌∷◌, ℤ, length, length-append,
  All, slice, from_le, get_elem?, as_usize, word_mod,
}
use mathlib.Core.Path.{subst}
use mpi_rma.Error.{ok}
use mpi_rma.Mpi.{Mpi}
use mpi_rma.Crc.{Crc}
use mpi_rma.Window.{Window, local}
use mpi_rma.Window.Bounds.{IsWindow}
use mpi_rma.Ring.Types.{word, Lane, Frame}
use mpi_rma.Ring.Image.Reject.{inspect_iff}
use mpi_rma.Ring.Regions.{IsPlaced, region}
use mpi_rma.Ring.Slots.{recover}
use mpi_rma.Ring.Slots.Survivors.{Survives, OkAll, recover_intact}
use mpi_rma.Ring.Poll.{Cursor, deliver, drain}
use mpi_rma.Ring.Poll.Relate.{drain_keeps}
use mpi_rma.Ring.Poll.Recovery.{IsCounted, absorb_accounts}

-- From one cursor to a later one: it does not go back, and each sequence number that it passed is a
-- message or is counted as lost.
pub record Accounts (s t : Cursor) : Type 0 where
  pub onward : s.seen ≤ t.seen
  pub more : length s.messages ≤ length t.messages
  pub balance :
      (t.lost + (length t.messages - length s.messages)) % word_mod
      ≡ (s.lost + (t.seen - s.seen)) % word_mod

Accounts-refl : (s : Cursor) (n : ℕ) → Accounts s (record s { corrupt = n })
Accounts-refl s n = record { onward = omega arith; more = omega arith; balance = omega arith }

Accounts-trans : (s t u : Cursor) → Accounts s t → Accounts t u → Accounts s u
Accounts-trans s t u a b = record {
  onward = omega (arith, a.onward, b.onward);
  more = omega (arith, a.more, b.more);
  balance = omega (arith, a.balance, b.balance, a.onward, b.onward, a.more, b.more);
}

deliver-Accounts :
    (origin : ℤ) (s : Cursor) (bytes : List ℕ) → Accounts s (deliver origin (s.seen + 1) bytes s)
deliver-Accounts origin s bytes =
    let grown =
      length-append s.messages
        (record { origin = origin; sequence = s.seen + 1; bytes = bytes } ∷ []) in
    record { onward = omega arith; more = omega (arith, grown); balance = omega (arith, grown) }

module _ (m : Mpi) (c : Crc) {slots : Window} {w : m.World} (v : IsWindow m slots w) {total : ℕ}
    (own : get_elem? slots.lengths (as_usize slots.rank) ≡ some total) {lane : Lane}
    (placed : IsPlaced lane total) (safe : Bool) (origin : ℤ)
    (heads : (p : ℕ)
      → p < lane.depth
      → from_le (slice 0 word (region lane p (local m slots w))) + 1 < word_mod) where
  Survives-IsCounted : (n : ℕ) (f : Frame) → Survives m c v own placed n f → IsCounted f
  Survives-IsCounted n f h =
      let (p, inside, intact) = h.1 in
      let facts = (inspect_iff c lane (region lane p (local m slots w)) f).0 intact in
      let same = ap (λ g. g.sequence) facts.5 in omega (arith, same, heads p inside)

  All-IsCounted :
      (n : ℕ) (fs : List Frame) → All (Survives m c v own placed n) fs → All IsCounted fs
  All-IsCounted n [] h = tt
  All-IsCounted n (f ∷ fs) h = (Survives-IsCounted n f h.0, All-IsCounted n fs h.1)

  recovered :
      (n corrupt k : ℕ) (fs : List Frame)
      → recover m c slots w lane n corrupt ≡ (ok fs, k)
      → All IsCounted fs
  recovered n corrupt k fs e =
      let all : OkAll (Survives m c v own placed n) (ok fs, k) =
        subst (OkAll (Survives m c v own placed n)) e (recover_intact m c v own placed n corrupt) in
      All-IsCounted n fs all

  pub drain-Accounts :
      (left : ℕ) (s : Cursor) → Accounts s (drain m c slots w safe lane origin left s).1
  drain-Accounts =
      drain_keeps m c slots w safe lane origin Accounts Accounts-refl Accounts-trans
        (λ s bytes small. deliver-Accounts origin s bytes)
        (λ raw s fs k small e.
          let (onward, same, more, balance) =
            absorb_accounts origin fs (record s { corrupt = k })
              (recovered s.seen s.corrupt k fs e) in
          record { onward = onward; more = more; balance = balance })

  -- On a raw or a safe lane that lies in its window, over any bytes in which no slot starts with
  -- the word 2^64 - 1, and also where the loop ends with an error: the cursor never goes back, and
  -- each sequence number that it passed is either a message handed out or counted as lost, modulo
  -- 2^64.
  pub drain_accounts :
      (left : ℕ) (s : Cursor)
      → let t = (drain m c slots w safe lane origin left s).1 in
        (s.seen ≤ t.seen)
        × (length s.messages ≤ length t.messages)
        × ((t.lost + (length t.messages - length s.messages)) % word_mod
            ≡ (s.lost + (t.seen - s.seen)) % word_mod)
  drain_accounts left s = let a = drain-Accounts left s in (a.onward, a.more, a.balance)
