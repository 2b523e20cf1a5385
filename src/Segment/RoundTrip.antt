-- ===== src/Segment/RoundTrip.antt =====
-- What a creator publishes, a reader opens.
use mpi_rma.Base.{ℕ, ◌≡◌, false, some, String, pos, ltb_ℤ}
use mpi_rma.Segment.Io.{Os, Io}
use mpi_rma.Segment.{Segment}
use mpi_rma.Segment.Contents.{StoreLaws}
use mpi_rma.Segment.Shared.{SharedLaws}

module _ (o : Os) (name : String) (stores : StoreLaws o) (laws : SharedLaws o name) where
  open laws use {object, holds, backs}

  -- The calls of an `open` of the object's size all succeed.
  pub record Granted (size : ℕ) (w : o.World) : Type 0 where
    pub opens : ltb_ℤ (o.open_object name w).0 (pos 0) ≡ false
    pub stats : (o.fstat (o.open_object name w).0 (o.open_object name w).1).0 ≡ pos 0
    pub base : ℕ
    pub maps :
        (o.mmap false
          (o.open_object name w).0
          size
          (o.fstat (o.open_object name w).0 (o.open_object name w).1).2).0
        ≡ some base
    pub closes :
        (o.close
          (o.open_object name w).0
          (o.mmap false
            (o.open_object name w).0
            size
            (o.fstat (o.open_object name w).0 (o.open_object name w).1).2).1).0
        ≡ pos 0
