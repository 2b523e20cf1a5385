-- ===== src/Segment/Contents.antt =====
-- The bytes that `create` publishes and the checks that `open` makes of them.
use mpi_rma.Base.{
  ℕ, ◌+◌, ◌≤◌, ◌<◌, ◌≡◌, ◌↔◌, refl, sym, ◌∙◌, ap, arith, inl, inr, List, length, slice, overwrite,
  le_bytes, from_le, word_mod,
}
use mpi_rma.Base.{
  length-overwrite, length-le_bytes, slice-overwrite_self, slice-overwrite_disjoint,
  from_le-le_bytes,
}
use mpi_rma.Segment.Io.{Os, done}
use mpi_rma.Segment.{header_size, magic, recognise, publish}

-- A store through a mapping writes its bytes there.
pub record StoreLaws (o : Os) : Type 0 where
  pub stored :
      (base at : ℕ) (xs : List ℕ) (w : o.World)
      → at + length xs ≤ length (o.mapped base w)
      → o.mapped base (o.store base at xs w) ≡ overwrite (o.mapped base w) at xs

-- `open` takes the mapped bytes exactly when they carry the revision it wants, the format tag, and
-- the length it wants.
pub recognise_iff :
    (revision size : ℕ) (bytes : List ℕ)
    → (recognise revision size bytes ≡ done tt) ↔ (
        (from_le (slice 16 8 bytes) ≡ revision)
        × (from_le (slice 0 8 bytes) ≡ from_le magic)
        × (from_le (slice 8 8 bytes) ≡ size))
unfolding recognise
recognise_iff revision size bytes = (λ e. ground (arith, e), λ h. ground (arith, h))

-- What the four stores leave.
abbrev pub layered : List ℕ → (revision : ℕ) → List ℕ → List ℕ
layered bytes revision payload =
    overwrite
      (overwrite (overwrite (overwrite bytes 0 magic) 8 (le_bytes 8 (length payload))) header_size
        payload)
      16 (le_bytes 8 revision)

module _ (bytes : List ℕ) (revision : ℕ) (payload : List ℕ)
    (whole : length bytes ≡ header_size + length payload) where
  abbrev one : List ℕ
  one = overwrite bytes 0 magic

  abbrev two : List ℕ
  two = overwrite one 8 (le_bytes 8 (length payload))

  abbrev three : List ℕ
  three = overwrite two header_size payload

  length-one : length one ≡ header_size + length payload
  length-one = length-overwrite bytes 0 magic ∙ whole

  length-two : length two ≡ header_size + length payload
  length-two = length-overwrite one 8 (le_bytes 8 (length payload)) ∙ length-one

  length-three : length three ≡ header_size + length payload
  length-three = length-overwrite two header_size payload ∙ length-two

  slice-stamp : slice 16 8 (layered bytes revision payload) ≡ le_bytes 8 revision
  slice-stamp =
      slice-overwrite_self three 16 8 (le_bytes 8 revision) (sym (length-le_bytes 8 revision))
        (omega (arith, length-three))

  slice-bytes : slice header_size (length payload) (layered bytes revision payload) ≡ payload
  slice-bytes =
      slice-overwrite_disjoint three 16 header_size (length payload) (le_bytes 8 revision)
        (inr (omega (arith, length-le_bytes 8 revision)))
      ∙ slice-overwrite_self two header_size (length payload) payload refl
          (omega (arith, length-two))

  slice-size : slice 8 8 (layered bytes revision payload) ≡ le_bytes 8 (length payload)
  slice-size =
      slice-overwrite_disjoint three 16 8 8 (le_bytes 8 revision) (inl (omega arith))
      ∙ slice-overwrite_disjoint two header_size 8 8 payload (inl (omega arith))
      ∙ slice-overwrite_self one 8 8 (le_bytes 8 (length payload))
          (sym (length-le_bytes 8 (length payload))) (omega (arith, length-one))

  slice-tag : slice 0 8 (layered bytes revision payload) ≡ magic
  slice-tag =
      slice-overwrite_disjoint three 16 0 8 (le_bytes 8 revision) (inl (omega arith))
      ∙ slice-overwrite_disjoint two header_size 0 8 payload (inl (omega arith))
      ∙ slice-overwrite_disjoint one 8 0 8 (le_bytes 8 (length payload)) (inl (omega arith))
      ∙ slice-overwrite_self bytes 0 8 magic refl (omega (arith, whole))

module _ (o : Os) (laws : StoreLaws o) (base revision : ℕ) (payload : List ℕ) (w : o.World)
    (whole : length (o.mapped base w) ≡ header_size + length payload) where
  pub mapped-publish :
      o.mapped base (publish o base revision payload w) ≡ layered (o.mapped base w) revision payload
  unfolding publish
  mapped-publish =
      let w1 = o.store base 0 magic w in
      let w2 = o.store base 8 (le_bytes 8 (length payload)) w1 in
      let w3 = o.store base header_size payload w2 in
      let e1 = laws.stored base 0 magic w (omega (arith, whole)) in
      let l1 = ap length e1 ∙ length-one (o.mapped base w) revision payload whole in
      let e2 =
        laws.stored base 8 (le_bytes 8 (length payload)) w1
          (omega (arith, l1, length-le_bytes 8 (length payload)))
        ∙ ap (λ t. overwrite t 8 (le_bytes 8 (length payload))) e1 in
      let l2 = ap length e2 ∙ length-two (o.mapped base w) revision payload whole in
      let e3 =
        laws.stored base header_size payload w2 (omega (arith, l2))
        ∙ ap (λ t. overwrite t header_size payload) e2 in
      let l3 = ap length e3 ∙ length-three (o.mapped base w) revision payload whole in
      laws.stored base 16 (le_bytes 8 revision) w3 (omega (arith, l3, length-le_bytes 8 revision))
      ∙ ap (λ t. overwrite t 16 (le_bytes 8 revision)) e3

  -- What `create` publishes in a mapping of the object's size, `open` recognises under the same
  -- revision and length, and the bytes after the header are the payload.
  pub recognise-publish :
      revision < word_mod
      → length payload < word_mod
      → let bytes = o.mapped base (publish o base revision payload w) in
        (recognise revision (length payload) bytes ≡ done tt)
        × (slice header_size (length payload) bytes ≡ payload)
  recognise-publish small short =
      let before = o.mapped base w in
      rw mapped-publish (
        (recognise_iff revision (length payload) (layered before revision payload)).1 (
          ap from_le (slice-stamp before revision payload whole)
              ∙ from_le-le_bytes 8 revision small,
          ap from_le (slice-tag before revision payload whole),
          ap from_le (slice-size before revision payload whole)
              ∙ from_le-le_bytes 8 (length payload) short,
        ),
        slice-bytes before revision payload whole,
      )
