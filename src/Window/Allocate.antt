-- ===== src/Window/Allocate.antt =====
-- src/window.rs: `init_epoch` and `allocate`. An element type is its width and its identifier.
use mpi_rma.Base.{
  ℕ, Bool, false, not, ◌&&◌, ◌||◌, none, some, List, [], ◌∷◌, map, ℤ, pos, negsuc, eqb_ℤ, as_usize,
}
use mpi_rma.Base.{replicate, ltb, ◌==◌, if◌then◌else◌, checked_mul, i32_max, i64_max}
use mpi_rma.Error.{
  Error, Result, ok, err, panic, guard, ok_or, size_overflow, count_overflow, intercommunicator,
  single, funneled, serialized, multiple,
}
use mpi_rma.Action.{Action, and_then, pure, lift, ◌>>=◌, ◌>>◌}
use mpi_rma.Mpi.{Mpi, Comm}
use mpi_rma.Window.{Window, MemoryModel, unified, separate, check, checked}

pub record Element : Type 0 where
  pub width : ℕ
  pub type_id : ℕ

-- The types that the ring uses, as `elements!` numbers them.
abbrev pub byte : Element
byte = record { width = 1; type_id = 1 }

abbrev pub long : Element
long = record { width = 8; type_id = 4 }

-- `usize::try_from` of an `i32`.
abbrev pub to_usize : ℤ → Result ℕ
to_usize (pos n) = ok n
to_usize (negsuc n) = err size_overflow

-- What one rank gathered.
pub record Config : Type 0 where
  pub len : ℕ
  pub width : ℕ
  pub type_id : ℕ

-- `chunks_exact(3)`.
unfoldable pub configs_of : List ℕ → List Config
configs_of [] = []
configs_of (a ∷ []) = []
configs_of (a ∷ b ∷ []) = []
configs_of (a ∷ b ∷ c ∷ rest) = record { len = a; width = b; type_id = c } ∷ configs_of rest

unfoldable pub differs : Element → List Config → Bool
differs e [] = false
differs e (c ∷ cs) = not (c.width == e.width && c.type_id == e.type_id) || differs e cs

-- The bytes of `len` elements, if an `MPI_Aint` can name them.
unfoldable pub extent : (len width : ℕ) → Result ℕ
extent len width = elim (checked_mul len width) [
  | none ↦ err size_overflow
  | some bytes ↦ if ltb i64_max bytes then err size_overflow else ok bytes
]

unfoldable pub extents_fit : ℕ → List ℕ → Result (Unit {0})
unfolding extent
extents_fit width [] = ok tt
extents_fit width (len ∷ rest) = elim (extent len width) [
  | ok bytes ↦ extents_fit width rest
  | err e ↦ err e
  | panic ↦ panic
]

module _ (m : Mpi) where
  open m use {World, err_win}

  -- The attribute call changes nothing.
  abbrev pub attribute : ℕ → Action World ℤ
  unfolding check
  attribute win w =
      let r = m.win_model win w in
      and_then (check m r.0, w) (λ _. lift (ok_or r.1 (Error.mpi err_win)))

  abbrev pub model_of : ℤ → MemoryModel
  model_of value = if eqb_ℤ value m.unified then unified else separate

  -- The storage is zeroed, if there is any.
  abbrev pub zeroed : ℕ → ℤ → ℕ → Action World (Unit {0})
  zeroed win rank len w =
      if ltb 0 len then (ok tt, m.store win (as_usize rank) (replicate len 0) w) else (ok tt, w)

  abbrev pub published : ℕ → MemoryModel → Action World (Unit {0})
  unfolding check
  published win unified = pure tt
  published win separate = checked m (m.win_sync win)

  unfoldable pub init_epoch :
      (win : ℕ) (rank : ℤ) (base : Bool) (len : ℕ) → Action World MemoryModel
  unfolding check
  init_epoch win rank base len = do
    lift (guard (not (ltb 0 len && not base)) (Error.mpi err_win))
    value ← attribute win
    checked m (m.lock_all win)
    zeroed win rank len
    published win (model_of value)
    pure (model_of value)

  -- A window that could not be prepared is freed, and the first error returned.
  abbrev pub or_free : ℕ → Result MemoryModel × World → Result MemoryModel × World
  or_free win (ok model, w) = (ok model, w)
  or_free win (err e, w) = (err e, (m.free win w).1)
  or_free win (panic, w) = (panic, w)

  abbrev pub threaded : Result (Unit {0})
  threaded = elim m.threading_support [
    | multiple ↦ ok tt
    | single ↦ err (Error.threading single)
    | funneled ↦ err (Error.threading funneled)
    | serialized ↦ err (Error.threading serialized)
  ]

  -- The configurations of all ranks.
  abbrev pub gathered : Comm → Config → Action World (List Config)
  unfolding configs_of
  gathered comm c w =
      let r = m.all_gather comm (c.len ∷ c.width ∷ c.type_id ∷ []) w in (ok (configs_of r.0), r.1)

  abbrev pub allocated : (bytes width : ℕ) → Comm → Action World (ℕ × Bool)
  unfolding check
  allocated bytes width comm w =
      let r = m.allocate bytes width comm w in and_then (check m r.0, r.3) (λ _. pure (r.1, r.2))

  unfoldable pub allocate : Comm → Element → ℕ → Action World Window
  unfolding configs_of differs extent extents_fit check init_epoch
  allocate comm e len = do
    lift (guard (not comm.inter) intercommunicator)
    lift threaded
    ranks ← lift (to_usize comm.size)
    total ← lift (ok_or (checked_mul ranks 3) size_overflow)
    lift (guard (not (ltb i32_max total)) count_overflow)
    configs ← gathered comm (record { len = len; width = e.width; type_id = e.type_id })
    lift (guard (not (differs e configs)) (Error.window "element type differs between ranks"))
    lift (extents_fit e.width (map (λ c. c.len) configs))
    bytes ← lift (extent len e.width)
    lift (guard (not (ltb i32_max e.width)) size_overflow)
    made ← allocated bytes e.width comm
    model ← (λ w. or_free made.0 (init_epoch made.0 comm.rank made.1 len w))
    (λ w. (ok tt, m.barrier comm w))
    pure (record {
      win = made.0;
      len = len;
      lengths = map (λ c. c.len) configs;
      rank = comm.rank;
      ranks = comm.size;
      model = model;
      closed = false;
    })
