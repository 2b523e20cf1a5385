-- ===== src/Ring/Poll/Order.antt =====
-- The order of the messages that the loop of `poll` hands out.
use mpi_rma.Base.{word_mod}
use mpi_rma.Base.{
  ℕ, ◌+◌, ◌≤◌, ◌<◌, ◌≡◌, refl, sym, ◌∙◌, ap, arith, Bool, true, false, List, [], ◌∷◌, ◌++◌, ℤ,
  get_elem?, as_usize, some, add_word, sub_word, saturating_add, le→ltb,
}
use mathlib.Core.List.{append-nil, append_assoc}
use mpi_rma.Mpi.{Mpi}
use mpi_rma.Crc.{Crc}
use mpi_rma.Window.{Window}
use mpi_rma.Window.Bounds.{IsWindow}
use mpi_rma.Ring.Types.{Message, Lane, Frame}
use mpi_rma.Ring.Regions.{IsPlaced}
use mpi_rma.Ring.Slots.Rising.{IsRising, recover-IsRising}
use mpi_rma.Ring.Poll.{Cursor, absorb, deliver, drain}
use mpi_rma.Ring.Poll.Relate.{drain_keeps}

-- A safe lane skips nothing; a raw one may.
abbrev pub IsNext : Bool → ℕ → ℕ → Type 0
IsNext true n q = q ≡ n + 1
IsNext false n q = n < q

-- Messages of one origin from the sequence number after `n` on, the last of them `e`.
abbrev pub Follows : Bool → ℤ → ℕ → List Message → ℕ → Type 0
Follows safe origin n [] e = n ≡ e
Follows safe origin n (x ∷ xs) e =
    (x.origin ≡ origin) × IsNext safe n x.sequence × Follows safe origin x.sequence xs e

Follows-append :
    (safe : Bool) (origin : ℤ) (n k e : ℕ) (xs ys : List Message)
    → Follows safe origin n xs k
    → Follows safe origin k ys e
    → Follows safe origin n (xs ++ ys) e
Follows-append safe origin n k e [] ys p q = rw p q
Follows-append safe origin n k e (x ∷ xs) ys p q =
    (p.0, p.1, Follows-append safe origin x.sequence k e xs ys p.2 q)

IsNext-succ : (safe : Bool) (n : ℕ) → IsNext safe n (n + 1)
IsNext-succ true n = refl
IsNext-succ false n = omega arith

module _ (safe : Bool) (origin : ℤ) where
  pub record Extends (s t : Cursor) : Type 0 where
    pub new : List Message
    pub grown : t.messages ≡ s.messages ++ new
    pub follows : Follows safe origin s.seen new t.seen
    pub bounded : safe ≡ true → s.seen < word_mod → t.seen < word_mod

  Extends-refl : (s : Cursor) (n : ℕ) → Extends s (record s { corrupt = n })
  Extends-refl s n = record {
    new = [];
    grown = sym (append-nil s.messages);
    follows = refl;
    bounded = λ _ h. h;
  }

  Extends-trans : (s t u : Cursor) → Extends s t → Extends t u → Extends s u
  Extends-trans s t u a b = record {
    new = a.new ++ b.new;
    grown = b.grown ∙ ap (λ xs. xs ++ b.new) a.grown ∙ append_assoc s.messages a.new b.new;
    follows = Follows-append safe origin s.seen t.seen u.seen a.new b.new a.follows b.follows;
    bounded = λ h small. b.bounded h (a.bounded h small);
  }

  deliver-Extends :
      (s : Cursor) (bytes : List ℕ)
      → s.seen + 1 < word_mod
      → Extends s (deliver origin (s.seen + 1) bytes s)
  deliver-Extends s bytes small = record {
    new = record { origin = origin; sequence = s.seen + 1; bytes = bytes } ∷ [];
    grown = refl;
    follows = (refl, IsNext-succ safe s.seen, refl);
    bounded = λ _ _. small;
  }

abbrev taken : ℤ → ℕ → Frame → Cursor → Cursor
taken origin next f s = record {
  seen = f.sequence;
  lost = add_word s.lost (sub_word f.sequence next);
  corrupt = s.corrupt;
  messages = s.messages ++ record { origin = origin; sequence = f.sequence; bytes = f.bytes } ∷ [];
}

absorb_taken :
    (origin : ℤ) (next : ℕ) (f : Frame) (fs : List Frame) (s : Cursor)
    → next ≤ f.sequence
    → absorb origin next (f ∷ fs) s
      ≡ absorb origin (saturating_add f.sequence 1) fs (taken origin next f s)
unfolding absorb
absorb_taken origin next f fs s h = rw (le→ltb f.sequence next h, absorb)

-- Rising frames are all handed out.
absorb-Extends :
    (origin : ℤ) (fs : List Frame) (next : ℕ) (s : Cursor)
    → next ≤ s.seen + 1
    → IsRising s.seen fs
    → Extends false origin s (absorb origin next fs s)
unfolding absorb
absorb-Extends origin [] next s h v = Extends-refl false origin s s.corrupt
absorb-Extends origin (f ∷ fs) next s h v =
    let t = taken origin next f s in
    let step : Extends false origin s t = record {
      new = record { origin = origin; sequence = f.sequence; bytes = f.bytes } ∷ [];
      grown = refl;
      follows = (refl, v.0, refl);
      bounded = λ impossible _. absurd cc;
    } in
    rw (absorb_taken origin next f fs s (omega (arith, v.0))) (
      Extends-trans false origin s t _ step
        (absorb-Extends origin fs (saturating_add f.sequence 1) t (omega arith) v.1))

module _ (m : Mpi) (c : Crc) {slots : Window} {w : m.World} (v : IsWindow m slots w) {total : ℕ}
    (own : get_elem? slots.lengths (as_usize slots.rank) ≡ some total) {lane : Lane}
    (placed : IsPlaced lane total) (safe : Bool) (origin : ℤ) where
  skips-Extends :
      safe ≡ false
      → (s : Cursor) (fs : List Frame) (k : ℕ) → IsRising s.seen fs
      → Extends safe origin s (absorb origin (s.seen + 1) fs (record s { corrupt = k }))
  skips-Extends raw s fs k rising = rw raw (
      Extends-trans false origin s (record s { corrupt = k }) _ (Extends-refl false origin s k)
        (absorb-Extends origin fs (s.seen + 1) (record s { corrupt = k }) (omega arith) rising))

  pub drain-Extends :
      (left : ℕ) (s : Cursor) → Extends safe origin s (drain m c slots w safe lane origin left s).1
  drain-Extends =
      drain_keeps m c slots w safe lane origin (Extends safe origin) (Extends-refl safe origin)
        (Extends-trans safe origin) (λ u bytes small. deliver-Extends safe origin u bytes small)
        (λ raw u fs k small found.
          skips-Extends raw u fs k (recover-IsRising m c v own placed u.seen u.corrupt fs k found))

  -- On a lane that lies in its window, over any bytes and also where the loop ends with an error:
  -- the messages that the loop adds are of the lane's origin, their sequence numbers rise from
  -- after the cursor to the new cursor, and on a safe lane each is the one after the last.
  pub drain_order :
      (left : ℕ) (s : Cursor)
      → let t = (drain m c slots w safe lane origin left s).1 in
        (new : List Message) × (t.messages ≡ s.messages ++ new)
        × Follows safe origin s.seen new t.seen
  drain_order left s = let e = drain-Extends left s in (e.new, e.grown, e.follows)
