-- ===== src/Segment.antt =====
-- src/segment.rs: a named segment of shared memory, created once and mapped by its readers.
pub mod Io
pub mod Names
pub mod Lifecycle
pub mod Contents
pub mod Shared
pub mod Opened
pub mod Reader
pub mod RoundTrip
use mpi_rma.Base.{
  ℕ, ◌+◌, ◌-◌, Bool, true, false, not, ◌||◌, Option, none, some, List, [], ◌∷◌, String, ℤ, pos,
  eqb_ℤ, if◌then◌else◌, ltb, ◌==◌, length, slice, checked_add, le_bytes, from_le, i64_max,
}
use Io.{IoError, os, invalid_input, invalid_data, Outcome, done, refused, aborted, panicked, Os}
use Io

abbrev pub header_size : ℕ
header_size = 64

-- The bytes "trameseg" as a little-endian word.
abbrev pub magic : List ℕ
magic = 116 ∷ 114 ∷ 97 ∷ 109 ∷ 101 ∷ 115 ∷ 101 ∷ 103 ∷ []

-- `base` is `none` once the mapping is gone; `failed` names a refused call and its errno.
pub record Segment : Type 0 where
  pub base : Option ℕ
  pub size : ℕ
  pub name : String
  pub owner : Bool
  pub failed : Option (String × ℤ)

-- The size of the object, if an `off_t` can name it. A length of 64 bits always fits a `u64`.
unfoldable pub object_size : ℕ → Outcome ℕ
object_size len = elim (checked_add header_size len) [
  | none ↦ refused (invalid_input "segment size overflows usize")
  | some size ↦
      if ltb i64_max size
      then refused (invalid_input "segment size does not fit off_t")
      else done size
]

-- The three checks of `open` on the mapped bytes.
unfoldable pub recognise : (revision length : ℕ) → List ℕ → Outcome (Unit {0})
recognise revision length bytes =
    if not (from_le (slice 16 8 bytes) == revision)
    then refused (invalid_data "segment revision disagrees with the handle")
    else if not (from_le (slice 0 8 bytes) == from_le magic)
        || not (from_le (slice 8 8 bytes) == length)
    then refused (invalid_data "segment format disagrees with the handle")
    else done tt

module _ (o : Os) where
  open o use {
    World, create_object, open_object, ftruncate, posix_fallocate, fstat, mmap, munmap, close,
    shm_unlink, errno, mapped, store,
  }

  -- The cleanup of a `create` that holds a descriptor.
  abbrev pub discard : String → ℤ → Io.Io o (Unit {0})
  discard name fd = Io.bind o (Io.or_abort o (close fd)) (λ _. Io.or_abort o (shm_unlink name))

  -- `posix_fallocate` returns the error number itself.
  unfoldable pub reserve : String → ℤ → ℕ → Io.Io o (Unit {0})
  reserve name fd size w =
      let r = posix_fallocate fd size w in
      if eqb_ℤ r.0 (pos 0)
      then (done tt, r.1)
      else Io.chain o (discard name fd r.1) (λ _. Io.give o (refused (os r.0)))

  unfoldable pub map_object : Bool → ℤ → ℕ → Io.Io o (Unit {0}) → Io.Io o ℕ
  map_object writable fd size cleanup w =
      let r = mmap writable fd size w in
      elim r.0 [
        | some base ↦ (done base, r.1)
        | none ↦ Io.chain o (cleanup r.1) (λ _. Io.give o (refused (os (errno r.1))))
      ]

  -- The four stores, the revision last.
  unfoldable pub publish : (base revision : ℕ) → List ℕ → World → World
  publish base revision payload w =
      let w1 = store base 0 magic w in
      let w2 = store base 8 (le_bytes 8 (length payload)) w1 in
      let w3 = store base header_size payload w2 in store base 16 (le_bytes 8 revision) w3

  abbrev pub published : String → ℕ → (base revision : ℕ) → List ℕ → Io.Io o Segment
  published name size base revision payload w = (
    done (record { base = some base; size = size; name = name; owner = true; failed = none }),
    publish base revision payload w,
  )

  -- `create` once the object exists.
  unfoldable pub fill : String → ℤ → (size revision : ℕ) → List ℕ → Io.Io o Segment
  unfolding reserve map_object
  fill name fd size revision payload =
      Io.bind o (Io.or_clean o (ftruncate fd size) (discard name fd)) (λ _.
        Io.bind o (reserve name fd size) (λ _.
          Io.bind o (map_object true fd size (discard name fd)) (λ base.
            Io.bind o
              (Io.or_clean o (close fd) (
                Io.bind o (Io.or_abort o (munmap base size))
                  (λ _. Io.or_abort o (shm_unlink name))))
              (λ _. published name size base revision payload))))

  unfoldable pub create : String → (revision : ℕ) → List ℕ → Io.Io o Segment
  unfolding object_size
  create name revision payload = Io.bind o (Io.give o (object_size (length payload))) (λ size.
      Io.bind o (Io.descriptor o (create_object name)) (λ fd. fill name fd size revision payload))

  -- `fstat`, and the comparison of the size.
  unfoldable pub measured : ℤ → ℕ → Io.Io o (Unit {0})
  measured fd size w =
      let r = fstat fd w in
      if not (eqb_ℤ r.0 (pos 0))
      then Io.chain o (Io.or_abort o (close fd) r.2) (λ _. Io.give o (refused (os (errno r.2))))
      else if not (eqb_ℤ r.1 (pos size))
      then Io.chain o (Io.or_abort o (close fd) r.2)
          (λ _. Io.give o (refused (invalid_data "segment size disagrees with the handle")))
      else (done tt, r.2)

  -- The checks of the mapped header; a refusal unmaps.
  unfoldable pub confirm : (base size revision length : ℕ) → Io.Io o (Unit {0})
  confirm base size revision length w = elim (recognise revision length (mapped base w)) [
    | done _ ↦ (done tt, w)
    | refused e ↦ Io.chain o (Io.or_abort o (munmap base size) w) (λ _. Io.give o (refused e))
    | aborted ↦ (aborted, w)
    | panicked ↦ (panicked, w)
  ]

  unfoldable pub open_segment : String → (revision length : ℕ) → Io.Io o Segment
  unfolding object_size measured map_object confirm
  open_segment name revision length = Io.bind o (Io.give o (object_size length)) (λ size.
      Io.bind o (Io.descriptor o (open_object name)) (λ fd. Io.bind o (measured fd size) (λ _.
        Io.bind o (map_object false fd size (Io.or_abort o (close fd))) (λ base.
          Io.bind o (Io.or_clean o (close fd) (Io.or_abort o (munmap base size))) (λ _.
            Io.bind o (confirm base size revision length) (λ _. Io.pure o (record {
              base = some base;
              size = size;
              name = name;
              owner = false;
              failed = none;
            })))))))

  unfoldable pub payload : Segment → World → Outcome (List ℕ)
  payload s w = elim s.base [
    | none ↦ panicked
    | some base ↦ done (slice header_size (s.size - header_size) (mapped base w))
  ]

  -- The outcome, the segment after the call, and the world.
  unfoldable pub detach : Segment → World → Outcome (Unit {0}) × Segment × World
  detach s w = elim s.failed [
    | some (call, n) ↦ (refused (os n), s, w)
    | none ↦ elim s.base [
      | none ↦ (done tt, s, w)
      | some base ↦
          let r = munmap base s.size w in
          if eqb_ℤ r.0 (pos 0)
          then (done tt, record s { base = none }, r.1)
          else (refused (os (errno r.1)), record s { failed = some ("munmap", errno r.1) }, r.1)
    ]
  ]

  -- `retire` once `detach` has returned.
  abbrev pub unlinked : Outcome (Unit {0}) × Segment × World → Outcome (Unit {0}) × Segment × World
  unlinked (done _, s, w) =
      let r = shm_unlink s.name w in
      if eqb_ℤ r.0 (pos 0)
      then (done tt, record s { owner = false }, r.1)
      else (refused (os (errno r.1)), record s { failed = some ("shm_unlink", errno r.1) }, r.1)
  unlinked (refused e, s, w) = (refused e, s, w)
  unlinked (aborted, s, w) = (aborted, s, w)
  unlinked (panicked, s, w) = (panicked, s, w)

  unfoldable pub retire : Segment → World → Outcome (Unit {0}) × Segment × World
  retire s w = elim s.failed [
    | some (call, n) ↦ (refused (os n), s, w)
    | none ↦ if s.owner then unlinked (detach s w) else (panicked, s, w)
  ]

  abbrev release_name : Segment → Io.Io o (Unit {0})
  release_name s w = if s.owner then Io.or_abort o (shm_unlink s.name) w else (done tt, w)

  -- `drop`.
  unfoldable pub drop_segment : Segment → Io.Io o (Unit {0})
  drop_segment s w = elim s.failed [
    | some (call, n) ↦ (aborted, w)
    | none ↦ elim s.base [
      | none ↦ release_name s w
      | some base ↦ Io.chain o (Io.or_abort o (munmap base s.size) w) (λ _. release_name s)
    ]
  ]
