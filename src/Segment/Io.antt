-- ===== src/Segment/Io.antt =====
-- The operating system's calls that src/segment.rs makes, as the operations of a record, and
-- results of the shape of `io::Result`. A call gives its return value and the world after it;
-- `errno` is what `io::Error::last_os_error` reads there.
use mpi_rma.Base.{ℕ, Bool, Option, List, String, ℤ, pos, eqb_ℤ, ltb_ℤ, if◌then◌else◌}

pub data IoError : Type 0 where
  os : ℤ → IoError
  invalid_input : String → IoError
  invalid_data : String → IoError

-- `aborted` ends the process, and `panicked` is a failed assertion.
pub data Outcome {ℓ} (A : Type ℓ) : Type ℓ where
  done : A → Outcome A
  refused : IoError → Outcome A
  aborted : Outcome A
  panicked : Outcome A

pub record Os : Type 1 where
  pub World : Type 0
  -- `shm_open` with `O_CREAT | O_EXCL | O_RDWR`, and with `O_RDONLY`.
  pub create_object : String → World → ℤ × World
  pub open_object : String → World → ℤ × World
  pub ftruncate : (fd : ℤ) (size : ℕ) → World → ℤ × World
  pub posix_fallocate : (fd : ℤ) (size : ℕ) → World → ℤ × World
  -- The code and `st_size`.
  pub fstat : (fd : ℤ) → World → ℤ × ℤ × World
  -- The base of the mapping, or `MAP_FAILED`.
  pub mmap : (writable : Bool) (fd : ℤ) (size : ℕ) → World → Option ℕ × World
  pub munmap : (base size : ℕ) → World → ℤ × World
  pub close : (fd : ℤ) → World → ℤ × World
  pub shm_unlink : String → World → ℤ × World
  pub errno : World → ℤ
  -- The bytes behind a mapping, and a store there.
  pub mapped : (base : ℕ) → World → List ℕ
  pub store : (base at : ℕ) → List ℕ → World → World
  -- Whether an object has the name.
  pub present : String → World → Bool

module _ (o : Os) where
  open o use {World, errno}

  abbrev pub Io {ℓ} : Type ℓ → Type ℓ
  Io A = World → Outcome A × World

  abbrev pub chain {ℓ κ} :
      {A : Type ℓ} {B : Type κ} → Outcome A × World → (A → Io B) → Outcome B × World
  chain (done a, w) k = k a w
  chain (refused e, w) k = (refused e, w)
  chain (aborted, w) k = (aborted, w)
  chain (panicked, w) k = (panicked, w)

  abbrev pub bind {ℓ κ} : {A : Type ℓ} {B : Type κ} → Io A → (A → Io B) → Io B
  bind act k w = chain (act w) k

  abbrev pub pure {ℓ} : {A : Type ℓ} → A → Io A
  pure a w = (done a, w)

  abbrev pub give {ℓ} : {A : Type ℓ} → Outcome A → Io A
  give r w = (r, w)

  -- A call whose failure ends the process.
  abbrev pub or_abort : (World → ℤ × World) → Io (Unit {0})
  or_abort call w = let r = call w in if eqb_ℤ r.0 (pos 0) then (done tt, r.1) else (aborted, r.1)

  -- A call whose failure is cleaned up, and then returned as it was before the cleanup.
  abbrev pub or_clean : (World → ℤ × World) → Io (Unit {0}) → Io (Unit {0})
  or_clean call cleanup w =
      let r = call w in
      if eqb_ℤ r.0 (pos 0)
      then (done tt, r.1)
      else chain (cleanup r.1) (λ _. give (refused (os (errno r.1))))

  -- A call that gives a descriptor.
  abbrev pub descriptor : (World → ℤ × World) → Io ℤ
  descriptor call w =
      let r = call w in
      if ltb_ℤ r.0 (pos 0) then (refused (os (errno r.1)), r.1) else (done r.0, r.1)
