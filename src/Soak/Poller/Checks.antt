-- ===== src/Soak/Poller/Checks.antt =====
-- What a batch that passes the poller's checks is, and which batches pass.
use mpi_rma.Base.{
  ℕ, ◌%◌, ◌+◌, ◌≤◌, ◌<◌, ◌≡◌, refl, sym, ◌∙◌, ap, arith, Bool, true, false, some, List, [], ◌∷◌, ℤ,
  as_usize, get_elem?, set, length, ◌==◌, word_mod, All, if◌then◌else◌, get_elem?-set_self,
  set_same, set-set, get_elem?-lt, get_elem?-set_ne, ==_iff, Bool-cases, Option-cases, inl, inr,
}
use mathlib.Core.Option.{some-injective}
use mpi_rma.Ring.Types.{Message}
use mpi_rma.Ring.Poll.Order.{IsNext, Follows}
use mpi_rma.Soak.{done, done-bind}
use mpi_rma.Soak.Payload.{verify}
use mpi_rma.Soak.Poller.{Batch, noted, check_sequence, check_message, check_batch}

-- Sequence numbers from after `n` to `e`.
abbrev pub Rises : Bool → ℕ → List Message → ℕ → Type 0
Rises safe n [] e = n ≡ e
Rises safe n (x ∷ xs) e = IsNext safe n x.sequence × Rises safe x.sequence xs e

-- The messages from one rank.
unfoldable pub from_rank : ℕ → List Message → List Message
from_rank i [] = []
from_rank i (m ∷ ms) =
    let rest = from_rank i ms in if as_usize m.origin == i then m ∷ rest else rest

-- What a message that passes is, and what is noted of it.
abbrev Passes : Bool → Message → Batch → Batch → Type 0
Passes safe m b b' =
    (verify m ≡ done tt)
    × (previous : ℕ) × (get_elem? b.seen (as_usize m.origin) ≡ some previous)
    × IsNext safe previous m.sequence
    × (noted m b ≡ b')

in_sequence :
    (safe : Bool) (m : Message) (previous : ℕ) (b b' : Batch)
    → check_sequence safe m previous b ≡ done b'
    → IsNext safe previous m.sequence × (noted m b ≡ b')
unfolding check_sequence
in_sequence true m previous b b' e = ground (arith, e)
in_sequence false m previous b b' e = ground (arith, e)

passed :
    (safe : Bool) (m : Message) (b b' : Batch)
    → check_message safe m b ≡ done b'
    → Passes safe m b b'
unfolding check_message
passed safe m b b' e =
    let (_, intact, known) = done-bind (verify m) _ b' e in
    elim (Option-cases (get_elem? b.seen (as_usize m.origin))) [
      | inl missing ↦ let bad = rw missing at known in cc
      | inr (previous, found) ↦
          let h = in_sequence safe m previous b b' (rw found at known) in
          (intact, previous, found, h.0, h.1)
    ]

next_in_sequence :
    (safe : Bool) (m : Message) (previous : ℕ) (b : Batch)
    → (safe ≡ true → previous + 1 < word_mod)
    → IsNext safe previous m.sequence
    → check_sequence safe m previous b ≡ done (noted m b)
unfolding check_sequence
next_in_sequence true m previous b small next = let room = small refl in ground (arith, room)
next_in_sequence false m previous b small next = ground arith

passes :
    (safe : Bool) (m : Message) (b : Batch) (previous : ℕ)
    → verify m ≡ done tt
    → get_elem? b.seen (as_usize m.origin) ≡ some previous
    → (safe ≡ true → previous + 1 < word_mod)
    → IsNext safe previous m.sequence
    → check_message safe m b ≡ done (noted m b)
unfolding check_message
passes safe m b previous v found small next =
    rw (check_message, v, found) (next_in_sequence safe m previous b small next)

IsNext-lt : (safe : Bool) (n q : ℕ) → IsNext safe n q → n < q
IsNext-lt true n q h = omega arith
IsNext-lt false n q h = h

Follows-le :
    (safe : Bool) (origin : ℤ) (n e : ℕ) (ms : List Message) → Follows safe origin n ms e → n ≤ e
Follows-le safe origin n e [] h = omega arith
Follows-le safe origin n e (m ∷ ms) h =
    omega (arith, IsNext-lt safe n m.sequence h.1, Follows-le safe origin m.sequence e ms h.2)

-- If a batch of any ranks' messages passes: every payload is intact, and a rank's messages rise
-- from after the sequence number that the poller had seen of it (each the next on a safe ring) to
-- the one that it has now seen.
pub check_batch_sound :
    (safe : Bool) (ms : List Message) (b b' : Batch)
    → check_batch safe ms b ≡ done b'
    → (i n : ℕ) → get_elem? b.seen i ≡ some n
    → All (λ m. verify m ≡ done tt) ms
      × (last : ℕ) × (get_elem? b'.seen i ≡ some last)
      × Rises safe n (from_rank i ms) last
unfolding check_batch from_rank
check_batch_sound safe [] b b' e i n h = let same : b ≡ b' = cc in (tt, n, rw (← same) h, refl)
check_batch_sound safe (m ∷ ms) b b' e i n h =
    let (b1, first, rest) = done-bind (check_message safe m b) _ b' e in
    let (intact, previous, found, next, same) = passed safe m b b1 first in
    let at : ℕ = as_usize m.origin in
    let moved : b1.seen ≡ set b.seen at m.sequence = ap (λ t. t.seen) (sym same) in
    elim (Bool-cases (at == i)) [
      | inl here ↦
          let place : at ≡ i = (==_iff at i).0 here in
          let known : n ≡ previous =
            some-injective n previous (sym h ∙ ap (get_elem? b.seen) (sym place) ∙ found) in
          let held : get_elem? b1.seen i ≡ some m.sequence =
            ap (λ xs. get_elem? xs i) moved
            ∙ ap (get_elem? (set b.seen at m.sequence)) (sym place)
            ∙ get_elem?-set_self b.seen at m.sequence (get_elem?-lt b.seen at previous found) in
          let (all, last, ends, rises) = check_batch_sound safe ms b1 b' rest i m.sequence held in
          ((intact, all), last, ends, rw here (rw known next, rises))
      | inr elsewhere ↦
          let held : get_elem? b1.seen i ≡ some n =
            ap (λ xs. get_elem? xs i) moved
            ∙ get_elem?-set_ne b.seen m.sequence (λ q. let equal = (==_iff at i).1 q in cc)
            ∙ h in
          let (all, last, ends, rises) = check_batch_sound safe ms b1 b' rest i n held in
          ((intact, all), last, ends, rw elsewhere rises)
    ]

-- A lane's messages in the order that `poll` promises pass, if the payloads are intact, and the
-- poller has then seen the last of them.
pub check_batch_accepts :
    (safe : Bool) (origin : ℤ) (ms : List Message) (b : Batch) (n e : ℕ)
    → get_elem? b.seen (as_usize origin) ≡ some n
    → Follows safe origin n ms e
    → All (λ m. verify m ≡ done tt) ms
    → (safe ≡ true → e < word_mod)
    → (b' : Batch) × (check_batch safe ms b ≡ done b')
      × (b'.seen ≡ set b.seen (as_usize origin) e)
      × (b'.total % word_mod ≡ (b.total + length ms) % word_mod)
unfolding check_batch
check_batch_accepts safe origin [] b n e found order intact small =
    (b, refl, sym (rw (← order) (set_same b.seen (as_usize origin) n found)), omega arith)
check_batch_accepts safe origin (m ∷ ms) b n e found order intact small =
    let at : ℕ = as_usize origin in
    let place : as_usize m.origin ≡ at = ap as_usize order.0 in
    let up = Follows-le safe origin m.sequence e ms order.2 in
    let above = IsNext-lt safe n m.sequence order.1 in
    let first =
      passes safe m b n intact.0 (ap (get_elem? b.seen) place ∙ found)
        (λ h. let room = small h in omega arith) order.1 in
    let moved : set b.seen (as_usize m.origin) m.sequence ≡ set b.seen at m.sequence =
      ap (λ i. set b.seen i m.sequence) place in
    let held =
      ap (λ xs. get_elem? xs at) moved
      ∙ get_elem?-set_self b.seen at m.sequence (get_elem?-lt b.seen at n found) in
    let (b', rest, ends, grown) =
      check_batch_accepts safe origin ms (noted m b) m.sequence e held order.2 intact.1 small in
    (
      b',
      rw first rest,
      ends ∙ ap (λ xs. set xs at e) moved ∙ set-set b.seen at m.sequence e,
      omega (arith, grown),
    )

-- Every payload of a batch that passes is intact.
pub check_batch_intact :
    (safe : Bool) (ms : List Message) (b b' : Batch)
    → check_batch safe ms b ≡ done b'
    → All (λ m. verify m ≡ done tt) ms
unfolding check_batch
check_batch_intact safe [] b b' e = tt
check_batch_intact safe (m ∷ ms) b b' e =
    let (b1, first, rest) = done-bind (check_message safe m b) _ b' e in
    ((passed safe m b b1 first).0, check_batch_intact safe ms b1 b' rest)
