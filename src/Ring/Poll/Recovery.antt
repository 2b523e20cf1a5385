-- ===== src/Ring/Poll/Recovery.antt =====
-- A raw lane that was lapped: `absorb` of the recovered frames.
use mpi_rma.Base.{
  ◌+◌, ◌-◌, ◌%◌, ◌≤◌, ◌<◌, ◌≡◌, refl, arith, List, [], ◌∷◌, ◌++◌, ℤ, length, length-append, All,
  ltb, word_mod, add_word, sub_word, Bool-cases, inl, inr, ltb→lt,
}
use mpi_rma.Ring.Types.{Frame}
use mpi_rma.Ring.Poll.{Cursor, absorb}

-- A sequence below the last one, after which the loop's `next` would saturate.
abbrev pub IsCounted : Frame → Type 0
IsCounted f = f.sequence + 1 < word_mod

module _ (origin : ℤ) where
  abbrev taken : Frame → Cursor → Cursor
  taken f s = record {
    seen = f.sequence;
    lost = add_word s.lost (sub_word f.sequence (s.seen + 1));
    corrupt = s.corrupt;
    messages =
        s.messages ++ record { origin = origin; sequence = f.sequence; bytes = f.bytes } ∷ [];
  }

  absorb_skip :
      (f : Frame) (fs : List Frame) (s : Cursor)
      → f.sequence < s.seen + 1
      → absorb origin (s.seen + 1) (f ∷ fs) s ≡ absorb origin (s.seen + 1) fs s
  unfolding absorb
  absorb_skip f fs s old = ground (arith, old)

  absorb_take :
      (f : Frame) (fs : List Frame) (s : Cursor)
      → s.seen < f.sequence
      → IsCounted f
      → absorb origin (s.seen + 1) (f ∷ fs) s ≡ absorb origin ((taken f s).seen + 1) fs (taken f s)
  unfolding absorb
  absorb_take f fs s new small = ground (arith, new, small)

  -- Whatever frames were recovered, the cursor does not go back and `corrupt` is left alone, and
  -- every sequence number that the cursor passed is either delivered as a message or counted as
  -- lost (a counter that wraps at 64 bits).
  pub absorb_accounts :
      (fs : List Frame) (s : Cursor)
      → All IsCounted fs
      → let t = absorb origin (s.seen + 1) fs s in
        (s.seen ≤ t.seen)
        × (t.corrupt ≡ s.corrupt)
        × (length s.messages ≤ length t.messages)
        × ((t.lost + (length t.messages - length s.messages)) % word_mod
            ≡ (s.lost + (t.seen - s.seen)) % word_mod)
  unfolding absorb
  absorb_accounts [] s small = (omega arith, refl, omega arith, omega arith)
  absorb_accounts (f ∷ fs) s small = elim (Bool-cases (ltb f.sequence (s.seen + 1))) [
    | inl old ↦
        rw (absorb_skip f fs s (ltb→lt f.sequence (s.seen + 1) old)) (absorb_accounts fs s small.1)
    | inr new ↦
        let (onward, same, more, balance) = absorb_accounts fs (taken f s) small.1 in
        let grown =
          length-append s.messages
            (record { origin = origin; sequence = f.sequence; bytes = f.bytes } ∷ []) in
        let ahead : s.seen < f.sequence = ground (arith, new) in
        rw (absorb_take f fs s ahead small.0) (
          omega (arith, onward, ahead),
          same,
          omega (arith, more, grown),
          omega (arith, balance, grown, more, onward, ahead, small.0),
        )
  ]
