-- ===== src/Soak/Payload.antt =====
-- `paint` and `verify`: the payloads that describe themselves.
use mpi_rma.Base.{
  ℕ, ◌+◌, ◌%◌, ◌^◌, ◌<◌, ◌≤◌, ◌≡◌, ◌↔◌, refl, sym, ◌∙◌, ap, ap₂, arith, true, false, not, ◌||◌,
  List, [], ◌∷◌, ◌++◌, ℤ, length, drop, slice, All, ltb, ◌==◌, if◌then◌else◌, eqb_ℤ, eqb_ℤ-refl,
  eqb_ℤ→eq, as_u32, as_i32, IsI32, as_i32-as_u32, as_u32-as_i32, as_u32-lt, le_bytes, from_le,
  from_le-le_bytes, le_bytes-from_le, from_le-lt, IsByte, word_mod, le→ltb, ltb→le, ==-refl, ==_iff,
  Bool-cases, inl, inr, length-slice, All-slice, slices-append,
}
use mpi_rma.Ring.Types.{Message}
use mpi_rma.Soak.{Outcome, done, failed, panicked, short, foreign, torn}

-- Origin and sequence, ahead of the fill.
abbrev pub stamp : ℕ
stamp = 12

-- `(sequence as u8).wrapping_add(i as u8)`.
unfoldable pub wanted : (sequence i : ℕ) → ℕ
wanted sequence i = (sequence % 256 + i % 256) % 256

unfoldable pub fill_from : (sequence i : ℕ) → List ℕ → List ℕ
fill_from sequence i [] = []
fill_from sequence i (b ∷ bs) = wanted sequence i ∷ fill_from sequence (i + 1) bs

-- The buffer afterwards; the slices panic on one that is too short.
unfoldable pub paint : ℤ → ℕ → List ℕ → Outcome (List ℕ)
unfolding fill_from
paint origin sequence buf =
    if ltb (length buf) stamp
    then panicked
    else done
        (le_bytes 4 (as_u32 origin) ++ le_bytes 8 sequence ++ fill_from sequence 0 (drop stamp buf))

unfoldable pub check_fill : ℤ → (sequence i : ℕ) → List ℕ → Outcome (Unit {0})
check_fill origin sequence i [] = done tt
check_fill origin sequence i (b ∷ bs) = elim (b == wanted sequence i) [
  | true ↦ check_fill origin sequence (i + 1) bs
  | false ↦ failed (torn origin sequence (i + stamp) b (wanted sequence i))
]

unfoldable pub verify : Message → Outcome (Unit {0})
unfolding check_fill
verify m =
    if ltb (length m.bytes) stamp
    then failed (short m.origin (length m.bytes))
    else let origin = as_i32 (from_le (slice 0 4 m.bytes)) in
      let sequence = from_le (slice 4 8 m.bytes) in
      if not (eqb_ℤ origin m.origin) || not (sequence == m.sequence)
      then failed (foreign origin sequence m.origin m.sequence)
      else check_fill origin sequence 0 (drop stamp m.bytes)

check_fill-fill_from :
    (origin : ℤ) (sequence i : ℕ) (bs : List ℕ)
    → check_fill origin sequence i (fill_from sequence i bs) ≡ done tt
unfolding check_fill fill_from
check_fill-fill_from origin sequence i [] = refl
check_fill-fill_from origin sequence i (b ∷ bs) =
    rw (check_fill, fill_from, ==-refl (wanted sequence i))
      (check_fill-fill_from origin sequence (i + 1) bs)

check_fill→eq :
    (origin : ℤ) (sequence i : ℕ) (bs : List ℕ)
    → check_fill origin sequence i bs ≡ done tt
    → fill_from sequence i bs ≡ bs
unfolding check_fill fill_from
check_fill→eq origin sequence i [] e = refl
check_fill→eq origin sequence i (b ∷ bs) e = elim (Bool-cases (b == wanted sequence i)) [
  | inl same ↦
      ap₂ ◌∷◌ (sym ((==_iff b (wanted sequence i)).0 same))
        (check_fill→eq origin sequence (i + 1) bs (rw (check_fill, same) at e))
  | inr other ↦ let bad = rw (check_fill, other) at e in cc
]

abbrev says_origin : Message → ℤ
says_origin m = as_i32 (from_le (slice 0 4 m.bytes))

abbrev says_sequence : Message → ℕ
says_sequence m = from_le (slice 4 8 m.bytes)

-- What an accepted payload has.
abbrev IsVerified : Message → Type 0
IsVerified m =
    (stamp ≤ length m.bytes)
    × (says_origin m ≡ m.origin)
    × (says_sequence m ≡ m.sequence)
    × (check_fill m.origin m.sequence 0 (drop stamp m.bytes) ≡ done tt)

verified : (m : Message) → IsVerified m → verify m ≡ done tt
unfolding verify
verified m (long, o, q, f) =
    rw (le→ltb (length m.bytes) stamp long, o, q, eqb_ℤ-refl m.origin, ==-refl m.sequence) f

unverified : (m : Message) → verify m ≡ done tt → IsVerified m
unfolding verify
unverified m e = elim (Bool-cases (ltb (length m.bytes) stamp)) [
  | inl short_one ↦ let bad = rw (verify, short_one) at e in cc
  | inr long ↦ elim (Bool-cases (eqb_ℤ (says_origin m) m.origin)) [
    | inl o ↦ elim (Bool-cases (says_sequence m == m.sequence)) [
      | inl q ↦
          let origin = eqb_ℤ→eq (says_origin m) m.origin o in
          let sequence = (==_iff (says_sequence m) m.sequence).0 q in
          (
            ltb→le (length m.bytes) stamp long,
            origin,
            sequence,
            rw (← sequence, ← origin) (rw (verify, long, o, q) at e),
          )
      | inr q ↦ let bad = rw (verify, long, o, q) at e in cc
    ]
    | inr o ↦ let bad = rw (verify, long, o) at e in cc
  ]
]

-- A stamp is read back from the front of the buffer.
module _ (origin : ℤ) (sequence : ℕ) (rest : List ℕ) where
  abbrev pub stamped : List ℕ
  stamped = le_bytes 4 (as_u32 origin) ++ le_bytes 8 sequence ++ rest

  stamped_origin : slice 0 4 stamped ≡ le_bytes 4 (as_u32 origin)
  unfolding le_bytes
  stamped_origin = refl

  stamped_sequence : slice 4 8 stamped ≡ le_bytes 8 sequence
  unfolding le_bytes
  stamped_sequence = refl

  stamped_rest : drop stamp stamped ≡ rest
  unfolding le_bytes
  stamped_rest = refl

  stamped_long : stamp ≤ length stamped
  unfolding le_bytes
  stamped_long = omega arith

painted :
    (origin : ℤ) (sequence : ℕ) (buf bytes : List ℕ)
    → paint origin sequence buf ≡ done bytes
    → stamped origin sequence (fill_from sequence 0 (drop stamp buf)) ≡ bytes
unfolding paint
painted origin sequence buf bytes e = elim (Bool-cases (ltb (length buf) stamp)) [
  | inl less ↦ let bad = rw (paint, less) at e in cc
  | inr long ↦ let made = rw (paint, long) at e in cc
]

pub paint_long :
    (origin : ℤ) (sequence : ℕ) (buf : List ℕ)
    → stamp ≤ length buf
    → paint origin sequence buf
      ≡ done (stamped origin sequence (fill_from sequence 0 (drop stamp buf)))
unfolding paint
paint_long origin sequence buf h = rw (le→ltb (length buf) stamp h)

-- `verify` accepts what `paint` wrote for the message's origin and sequence number, whatever the
-- buffer held before. The rank is an `i32` and the sequence number a `u64`.
pub verify-paint :
    (origin : ℤ) (sequence : ℕ)
    → IsI32 origin
    → sequence < word_mod
    → (buf bytes : List ℕ) → paint origin sequence buf ≡ done bytes
    → verify (record { origin = origin; sequence = sequence; bytes = bytes }) ≡ done tt
verify-paint origin sequence small room buf bytes e =
    let rest = fill_from sequence 0 (drop stamp buf) in
    rw (← painted origin sequence buf bytes e) (
      verified
        (record { origin = origin; sequence = sequence; bytes = stamped origin sequence rest })
        (
          stamped_long origin sequence rest,
          ap (λ bs. as_i32 (from_le bs)) (stamped_origin origin sequence rest)
              ∙ ap as_i32
                  (from_le-le_bytes 4 (as_u32 origin) (omega (arith, as_u32-lt origin small)))
              ∙ as_i32-as_u32 origin small,
          ap from_le (stamped_sequence origin sequence rest)
              ∙ from_le-le_bytes 8 sequence (omega arith),
          ap (check_fill origin sequence 0) (stamped_rest origin sequence rest)
              ∙ check_fill-fill_from origin sequence 0 (drop stamp buf),
        ))

-- A field of the stamp is the number that it is read as.
field :
    (i k : ℕ) (bytes : List ℕ)
    → All IsByte bytes
    → i + k ≤ length bytes
    → le_bytes k (from_le (slice i k bytes)) ≡ slice i k bytes
field i k bytes all inside =
    rw (length-slice i k bytes inside) at
      (le_bytes-from_le (slice i k bytes) (All-slice IsByte i k bytes all))

field_lt :
    (i k : ℕ) (bytes : List ℕ)
    → All IsByte bytes
    → i + k ≤ length bytes
    → from_le (slice i k bytes) < 256 ^ k
field_lt i k bytes all inside =
    rw (length-slice i k bytes inside) at
      (from_le-lt (slice i k bytes) (All-slice IsByte i k bytes all))

-- For a message of bytes from an `i32` rank: `verify` accepts it exactly when painting its buffer
-- for the origin and the sequence number that the ring reports would leave it as it is.
pub verify_iff :
    (m : Message)
    → IsI32 m.origin
    → m.sequence < word_mod
    → All IsByte m.bytes
    → (verify m ≡ done tt) ↔ (paint m.origin m.sequence m.bytes ≡ done m.bytes)
verify_iff m small room all = (
  λ e.
      let (long, o, q, f) = unverified m e in
      let origin : le_bytes 4 (as_u32 m.origin) ≡ slice 0 4 m.bytes =
        ap (λ r. le_bytes 4 (as_u32 r)) (sym o)
        ∙ ap (le_bytes 4)
            (as_u32-as_i32 (from_le (slice 0 4 m.bytes)) (field_lt 0 4 m.bytes all (omega arith)))
        ∙ field 0 4 m.bytes all (omega arith) in
      let sequence : le_bytes 8 m.sequence ≡ slice 4 8 m.bytes =
        ap (le_bytes 8) (sym q) ∙ field 4 8 m.bytes all (omega arith) in
      paint_long m.origin m.sequence m.bytes long
      ∙ ap done (
          ap₂ (λ x y. x ++ y) (ap₂ (λ x y. x ++ y) origin sequence)
            (check_fill→eq m.origin m.sequence 0 (drop stamp m.bytes) f)
          ∙ slices-append 4 8 12 m.bytes refl),
  λ e. verify-paint m.origin m.sequence small room m.bytes m.bytes e,
)
