-- ===== src/Soak/Sender/Payloads.antt =====
-- The payloads of the rounds, and the messages that they are sent in.
use mpi_rma.Base.{
  ℕ, zero, suc, ◌+◌, ◌-◌, ◌≤◌, ◌<◌, ◌≡◌, ◌≢◌, refl, sym, ◌∙◌, ap, ap₂, arith, not, ◌&&◌, List, [],
  ◌∷◌, ◌++◌, pos, length, replicate, drop, ltb, ◌==◌, if◌then◌else◌, length-append, length-drop,
  length-replicate, length-le_bytes, as_u32, le_bytes, Bool-cases, inl, inr,
}
use mpi_rma.Soak.{done}
use mpi_rma.Soak.Payload.{paint, fill_from, wanted, stamp, stamped, paint_long}

-- The payload of a round, whatever buffer it is painted over.
abbrev pub payload_of : (rank len sequence : ℕ) → List ℕ
payload_of rank len sequence =
    stamped (pos rank) sequence (fill_from sequence 0 (replicate (len - stamp) 0))

-- The payloads of the rounds from `sequence` on.
unfoldable pub payloads : (rank len left sequence : ℕ) → List (List ℕ)
payloads rank len zero sequence = []
payloads rank len (suc left) sequence =
    payload_of rank len sequence ∷ payloads rank len left (sequence + 1)

fill_from-length :
    (sequence i : ℕ) (xs ys : List ℕ)
    → length xs ≡ length ys
    → fill_from sequence i xs ≡ fill_from sequence i ys
unfolding fill_from
fill_from-length sequence i [] [] e = refl
fill_from-length sequence i [] (y ∷ ys) e = absurd (omega arith)
fill_from-length sequence i (x ∷ xs) [] e = absurd (omega arith)
fill_from-length sequence i (x ∷ xs) (y ∷ ys) e =
    ap (λ t. wanted sequence i ∷ t) (fill_from-length sequence (i + 1) xs ys (omega arith))

length-fill_from : (sequence i : ℕ) (xs : List ℕ) → length (fill_from sequence i xs) ≡ length xs
unfolding fill_from
length-fill_from sequence i [] = refl
length-fill_from sequence i (x ∷ xs) = ap suc (length-fill_from sequence (i + 1) xs)

pub paint-payload :
    (rank sequence : ℕ) (buf : List ℕ)
    → stamp ≤ length buf
    → paint (pos rank) sequence buf ≡ done (payload_of rank (length buf) sequence)
paint-payload rank sequence buf h =
    paint_long (pos rank) sequence buf h
    ∙ ap (λ t. done (stamped (pos rank) sequence t))
        (fill_from-length sequence 0 (drop stamp buf) (replicate (length buf - stamp) 0)
          (length-drop stamp buf ∙ sym (length-replicate (length buf - stamp) 0)))

pub length-payload_of :
    (rank len sequence : ℕ) → stamp ≤ len → length (payload_of rank len sequence) ≡ len
length-payload_of rank len sequence h =
    let fill = fill_from sequence 0 (replicate (len - stamp) 0) in
    let front = le_bytes 4 (as_u32 (pos rank)) ++ le_bytes 8 sequence in
    omega (
      arith,
      length-append front fill,
      length-append (le_bytes 4 (as_u32 (pos rank))) (le_bytes 8 sequence),
      length-le_bytes 4 (as_u32 (pos rank)),
      length-le_bytes 8 sequence,
      length-fill_from sequence 0 (replicate (len - stamp) 0),
      length-replicate {A = ℕ} (len - stamp) 0,
    )

-- What was handed over for rank `d`.
unfoldable pub handed_to : ℕ → List (ℕ × List ℕ) → List (List ℕ)
handed_to d [] = []
handed_to d ((e, bytes) ∷ rest) =
    let others = handed_to d rest in if e == d then bytes ∷ others else others

pub handed_to-append :
    (d : ℕ) (xs ys : List (ℕ × List ℕ)) → handed_to d (xs ++ ys) ≡ handed_to d xs ++ handed_to d ys
unfolding handed_to
handed_to-append d [] ys = refl
handed_to-append d ((e, bytes) ∷ xs) ys =
    let h = handed_to-append d xs ys in
    elim (Bool-cases (e == d)) [ inl s ↦ rw (s, h) | inr s ↦ rw (s, h) ]

-- A round's messages, and those of all rounds.
unfoldable pub calls : (rank len sequence left d : ℕ) → List (ℕ × List ℕ)
calls rank len sequence zero d = []
calls rank len sequence (suc left) d =
    let others = calls rank len sequence left (d + 1) in
    if d == rank then others else (d, payload_of rank len sequence) ∷ others

unfoldable pub all_calls : (rank len size left sequence : ℕ) → List (ℕ × List ℕ)
all_calls rank len size zero sequence = []
all_calls rank len size (suc left) sequence =
    calls rank len sequence size 0 ++ all_calls rank len size left (sequence + 1)

-- One message of a round goes to each destination but the rank itself.
handed_to-calls :
    (rank len sequence left d i : ℕ)
    → handed_to i (calls rank len sequence left d) ≡ (
        if not (ltb i d) && ltb i (d + left) && not (i == rank)
        then payload_of rank len sequence ∷ []
        else [])
unfolding handed_to calls
handed_to-calls rank len sequence zero d i = ground arith
handed_to-calls rank len sequence (suc left) d i =
    let h = handed_to-calls rank len sequence left (d + 1) i in ground (arith, h)

pub handed_to-all_calls :
    (rank len size left sequence i : ℕ)
    → i < size
    → i ≢ rank
    → handed_to i (all_calls rank len size left sequence) ≡ payloads rank len left sequence
unfolding handed_to all_calls payloads
handed_to-all_calls rank len size zero sequence i inside other = refl
handed_to-all_calls rank len size (suc left) sequence i inside other =
    let one = handed_to-calls rank len sequence size 0 i in
    let single : handed_to i (calls rank len sequence size 0) ≡ payload_of rank len sequence ∷ [] =
      ground (arith, one) in
    handed_to-append i (calls rank len sequence size 0) _
    ∙ ap₂ (λ x y. x ++ y) single
        (handed_to-all_calls rank len size left (sequence + 1) i inside other)
