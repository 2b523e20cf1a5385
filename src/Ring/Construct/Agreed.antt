-- ===== src/Ring/Construct/Agreed.antt =====
-- `agree`: which lane lists the ranks accept together.
use mpi_rma.Base.{ℕ, ◌*◌, ◌<◌, ◌^◌, ◌≡◌, ◌↔◌, refl, ◌∙◌, ap, arith}
use mpi_rma.Base.{List, [], ◌∷◌, length, All, Bool, true, false}
use mpi_rma.Base.{◌⊎◌, inl, inr, Bool-cases, ℤ, pos, negsuc, as_usize}
use mpi_rma.Base.{if◌then◌else◌}
use mpi_rma.Error.{ok, err, ring}
use mpi_rma.Mpi.{Mpi, Comm}
use mpi_rma.Ring.Layout.Sorting.{Spec}
use mpi_rma.Ring.Construct.{any_other, any_row_other, words_of, flag, agree}
use mpi_rma.Ring.Construct.Rows.{rows_joined, any_other_iff, any_row_other_iff}

-- A rank as the code's type holds it.
abbrev pub IsI32 : ℤ → Type 0
IsI32 (pos n) = n < 2 ^ 31
IsI32 (negsuc n) = n < 2 ^ 31

abbrev pub AreRanks : List Spec → Type 0
AreRanks config = All (λ s. IsI32 s.source × IsI32 s.destination) config

as_usize-injective : (a b : ℤ) → IsI32 a → IsI32 b → as_usize a ≡ as_usize b → a ≡ b
as_usize-injective (pos n) (pos k) h g e = ap pos e
as_usize-injective (pos n) (negsuc k) h g e = absurd (omega arith)
as_usize-injective (negsuc n) (pos k) h g e = absurd (omega arith)
as_usize-injective (negsuc n) (negsuc k) h g e = let same : n ≡ k = omega arith in ap negsuc same

length-words_of : (config : List Spec) → length (words_of config) ≡ 4 * length config
unfolding words_of
length-words_of [] = refl
length-words_of (s ∷ rest) = omega (arith, length-words_of rest)

-- The words tell two lane lists apart.
words_of-injective :
    (xs ys : List Spec) → AreRanks xs → AreRanks ys → words_of xs ≡ words_of ys → xs ≡ ys
unfolding words_of
words_of-injective [] [] h g e = refl
words_of-injective [] (t ∷ ys) h g e = cc
words_of-injective (s ∷ xs) [] h g e = cc
words_of-injective (s ∷ xs) (t ∷ ys) h g e =
    let origin = as_usize-injective s.source t.source h.0.0 g.0.0 (cc) in
    let target = as_usize-injective s.destination t.destination h.0.1 g.0.1 (cc) in
    let deep : s.depth ≡ t.depth = cc in
    let wide : s.capacity ≡ t.capacity = cc in
    let rest = words_of-injective xs ys h.1 g.1 (cc) in
    let head : s ≡ t = λ i. record {
      source = origin i;
      destination = target i;
      depth = deep i;
      capacity = wide i;
    } in
    cc

module _ (m : Mpi) (comm : Comm) (ranks : ℕ) (is_size : comm.size ≡ pos ranks) (me : ℕ)
    (member : me < ranks) (safe : ℕ → Bool) (configs : ℕ → List Spec) (w : m.World) where
  abbrev pub row : ℕ → List ℕ
  row r = flag (safe r) ∷ words_of (configs r)

  abbrev counting : List ℕ × m.World
  counting = m.all_gather comm (length (configs me) ∷ []) w

  abbrev comparing : List ℕ × m.World
  comparing = m.all_gather comm (row me) counting.1

  -- Each rank's contribution reaches every rank, in the order of the ranks. The second gathering
  -- needs rows of one length.
  module _ (first : counting.0 ≡ rows_joined ranks (λ r. length (configs r) ∷ []))
      (second : ((r : ℕ) → r < ranks → length (configs r) ≡ length (configs me))
        → comparing.0 ≡ rows_joined ranks row)
      (typed : (r : ℕ) → r < ranks → AreRanks (configs r)) where
    abbrev pub AllSame : Type 0
    AllSame = (r : ℕ) → r < ranks → (safe r ≡ safe me) × (configs r ≡ configs me)

    abbrev pub SameCounts : Type 0
    SameCounts = (r : ℕ) → r < ranks → length (configs r) ≡ length (configs me)

    -- The call by its two tests.
    counts_differ :
        any_other (length (configs me)) counting.0 ≡ true
        → (agree m comm (safe me) (configs me) w).0
          ≡ err (ring "configuration differs between ranks")
    unfolding agree
    counts_differ e = ground (arith, is_size, e)

    rows_compared :
        any_other (length (configs me)) counting.0 ≡ false
        → (agree m comm (safe me) (configs me) w).0 ≡ (
            if any_row_other ranks (row me) comparing.0
            then err (ring "configuration differs between ranks")
            else ok tt)
    unfolding agree
    rows_compared e = ground (arith, is_size, e)

    any_other_same : (any_other (length (configs me)) counting.0 ≡ false) ↔ SameCounts
    any_other_same = rw first (any_other_iff ranks (length (configs me)) (λ r. length (configs r)))

    one_length : SameCounts → (r : ℕ) → r < ranks → length (row r) ≡ length (row me)
    one_length same r h =
        omega (arith, length-words_of (configs r), length-words_of (configs me), same r h)

    any_row_same :
        SameCounts
        → (any_row_other ranks (row me) comparing.0 ≡ false)
          ↔ ((r : ℕ) → r < ranks → row r ≡ row me)
    any_row_same same = rw (second same) (any_row_other_iff ranks (row me) row (one_length same))

    row_same : (r : ℕ) → r < ranks → row r ≡ row me → (safe r ≡ safe me) × (configs r ≡ configs me)
    row_same r h e = (
      ground arith,
      words_of-injective (configs r) (configs me) (typed r h) (typed me member) (cc),
    )

    accepts_same : AllSame → (agree m comm (safe me) (configs me) w).0 ≡ ok tt
    accepts_same all =
        let counts : SameCounts = λ r h. ap length (all r h).1 in
        let equal = (any_row_same counts).1 (λ r h. rw ((all r h).0, (all r h).1) refl) in
        rows_compared (any_other_same.1 counts) ∙ rw equal refl

    outcome :
        ((agree m comm (safe me) (configs me) w).0 ≡ ok tt) × AllSame
        ⊎ ((agree m comm (safe me) (configs me) w).0
            ≡ err (ring "configuration differs between ranks"))
    outcome = elim (Bool-cases (any_other (length (configs me)) counting.0)) [
      | inl other ↦ inr (counts_differ other)
      | inr none_other ↦
          let counts = any_other_same.0 none_other in
          elim (Bool-cases (any_row_other ranks (row me) comparing.0)) [
            | inl differs ↦ inr (rows_compared none_other ∙ rw differs refl)
            | inr alike ↦
                let all : AllSame = λ r h. row_same r h ((any_row_same counts).0 alike r h) in
                inl (accepts_same all, all)
          ]
    ]

    -- Where every rank's contribution reaches this rank in the order of the ranks, the
    -- communicator's size is known and each list names ranks that an `i32` holds: the ranks' lists
    -- pass exactly when every rank handed in this rank's list and flag, entry by entry, and every
    -- other combination is refused as a difference of configuration.
    pub agree_iff :
        let r = (agree m comm (safe me) (configs me) w).0 in
        ((r ≡ ok tt) ↔ AllSame)
        × ((r ≡ ok tt) ⊎ (r ≡ err (ring "configuration differs between ranks")))
    agree_iff = elim outcome [
      | inl (passed, all) ↦ ((λ e. all, λ h. passed), inl passed)
      | inr refused ↦ ((λ e. absurd (ground (arith, e, refused)), accepts_same), inr refused)
    ]
