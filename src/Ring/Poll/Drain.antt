-- ===== src/Ring/Poll/Drain.antt =====
-- The loop of `poll` on one lane, over a run of messages that wait in their slots.
use mpi_rma.Base.{ℕ, zero, suc, ◌+◌, ◌%◌, ◌≤◌, ◌<◌, ◌≡◌, refl, sym, ◌∙◌, ap, arith, some, Bool}
use mpi_rma.Base.{List, [], ◌∷◌, ◌++◌, ℤ, length, as_usize, get_elem?, word_mod, ◌⊎◌, inl, inr}
use mathlib.Core.List.{append-nil, append_assoc}
use mpi_rma.Error.{ok}
use mpi_rma.Mpi.{Mpi}
use mpi_rma.Crc.{Crc}
use mpi_rma.Window.{Window, local}
use mpi_rma.Window.Bounds.{IsWindow}
use mpi_rma.Ring.Types.{Message, Lane}
use mpi_rma.Ring.Regions.{IsPlaced, region}
use mpi_rma.Ring.Poll.{Cursor, deliver, drain}
use mpi_rma.Ring.Poll.Rounds.{Holds, IsVacant, round_take, round_vacant, round_old}

-- Payloads as the messages after sequence `n`.
unfoldable pub tagged : ℤ → ℕ → List (List ℕ) → List Message
tagged origin n [] = []
tagged origin n (b ∷ bs) =
    record { origin = origin; sequence = n + 1; bytes = b } ∷ tagged origin (n + 1) bs

pub tagged-append :
    (origin : ℤ) (n : ℕ) (xs ys : List (List ℕ))
    → tagged origin n (xs ++ ys) ≡ tagged origin n xs ++ tagged origin (n + length xs) ys
unfolding tagged
tagged-append origin n [] ys =
    let same : n ≡ n + 0 = omega arith in ap (λ k. tagged origin k ys) same
tagged-append origin n (x ∷ xs) ys =
    let same : n + 1 + length xs ≡ n + suc (length xs) = omega arith in
    ap (λ t. record { origin = origin; sequence = n + 1; bytes = x } ∷ t)
      (tagged-append origin (n + 1) xs ys
        ∙ ap (λ k. tagged origin (n + 1) xs ++ tagged origin k ys) same)

pub length-tagged :
    (origin : ℤ) (n : ℕ) (xs : List (List ℕ)) → length (tagged origin n xs) ≡ length xs
unfolding tagged
length-tagged origin n [] = refl
length-tagged origin n (x ∷ xs) = ap suc (length-tagged origin (n + 1) xs)

-- The cursor after a run of payloads.
abbrev pub advance : ℤ → Cursor → List (List ℕ) → Cursor
advance origin s bs = record s {
  seen = s.seen + length bs;
  messages = s.messages ++ tagged origin s.seen bs;
}

module _ (c : Crc) (lane : Lane) (memory : List ℕ) where
  -- The payloads wait, in order, in the slots of the sequence numbers after `n`.
  abbrev pub AreWaiting : ℕ → List (List ℕ) → Type 0
  AreWaiting n [] = Unit {0}
  AreWaiting n (b ∷ bs) =
      Holds c lane (region lane (n % lane.depth) memory) (n + 1) b × AreWaiting (n + 1) bs

  -- The slot of the sequence number after `n` holds nothing new.
  abbrev pub IsDrained : ℕ → Type 0
  IsDrained n =
      IsVacant (region lane (n % lane.depth) memory)
      ⊎ ((sequence : ℕ) × (bytes : List ℕ) × (sequence ≤ n)
          × Holds c lane (region lane (n % lane.depth) memory) sequence bytes)

module _ (m : Mpi) (c : Crc) {slots : Window} {w : m.World} (v : IsWindow m slots w) {total : ℕ}
    (own : get_elem? slots.lengths (as_usize slots.rank) ≡ some total) {lane : Lane}
    (placed : IsPlaced lane total) (safe : Bool) (origin : ℤ) where
  drain_stop :
      (left : ℕ) (s : Cursor)
      → s.seen + 1 < word_mod
      → IsDrained c lane (local m slots w) s.seen
      → drain m c slots w safe lane origin left s ≡ (ok tt, s)
  unfolding drain
  drain_stop zero s small stop = refl
  drain_stop (suc left) s small (inl empty) =
      rw (round_vacant m c v own placed safe origin s small empty)
  drain_stop (suc left) s small (inr (q, b, old, held)) =
      rw (round_old m c v own placed safe origin s q b small old held)

  advance-nil : (s : Cursor) → advance origin s [] ≡ s
  unfolding tagged
  advance-nil s = ground (arith, append-nil s.messages)

  advance-cons :
      (s : Cursor) (b : List ℕ) (bs : List (List ℕ))
      → advance origin (deliver origin (s.seen + 1) b s) bs ≡ advance origin s (b ∷ bs)
  unfolding tagged
  advance-cons s b bs = ground (
    arith,
    append_assoc s.messages (record { origin = origin; sequence = s.seen + 1; bytes = b } ∷ [])
        (tagged origin (s.seen + 1) bs),
  )

  -- With rounds enough, the loop delivers the whole run in order, stops at the slot after it, and
  -- changes no counter.
  pub drain_run :
      (bs : List (List ℕ)) (left : ℕ) (s : Cursor)
      → length bs ≤ left
      → s.seen + length bs + 1 < word_mod
      → AreWaiting c lane (local m slots w) s.seen bs
      → IsDrained c lane (local m slots w) (s.seen + length bs)
      → drain m c slots w safe lane origin left s ≡ (ok tt, advance origin s bs)
  unfolding drain
  drain_run [] left s room small waiting stop =
      let same : s.seen + 0 ≡ s.seen = omega arith in
      drain_stop left s (omega arith) (rw same at stop) ∙ ap (λ t. (ok tt, t)) (sym (advance-nil s))
  drain_run (b ∷ bs) zero s room small waiting stop = absurd (omega arith)
  drain_run (b ∷ bs) (suc left) s room small waiting stop =
      let step : s.seen + suc (length bs) ≡ s.seen + 1 + length bs = omega arith in
      rw (round_take m c v own placed safe origin s b (omega arith) waiting.0) (
        drain_run bs left (deliver origin (s.seen + 1) b s) (omega arith) (omega arith) waiting.1
          (rw step at stop)
        ∙ ap (λ t. (ok tt, t)) (advance-cons s b bs))
