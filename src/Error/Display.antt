-- ===== src/Error/Display.antt =====
-- src/error.rs: `Display for Error`. What is written is a list of pieces: literal text, and the
-- values that the format string refers to, whose digits are the standard library's.
use mpi_rma.Base.{ℕ, ℤ, String, List, [], ◌∷◌, saturating_add}
use mpi_rma.Error.{
  Threading, Error, mpi, threading, intercommunicator, size_overflow, count_overflow, rank, range,
  window, full, ring, payload, lapped,
}

pub data Piece : Type 0 where
  text : String → Piece
  signed : ℤ → Piece
  number : ℕ → Piece
  debug : Threading → Piece

unfoldable pub fmt : Error → List Piece
fmt (mpi code) = text "MPI RMA error " ∷ signed code ∷ []
fmt (threading got) = text "MPI RMA requires Threading::Multiple, got " ∷ debug got ∷ []
fmt intercommunicator = text "MPI RMA requires an intracommunicator" ∷ []
fmt size_overflow = text "RMA window size does not fit MPI_Aint" ∷ []
fmt count_overflow = text "RMA transfer count does not fit MPI Count" ∷ []
fmt (rank r) = text "rank " ∷ signed r ∷ text " is outside the window communicator" ∷ []
fmt (range start len total) =
    text "RMA range "
    ∷ number start
    ∷ text ".."
    ∷ number (saturating_add start len)
    ∷ text " exceeds window length "
    ∷ number total
    ∷ []
fmt (window msg) = text "invalid RMA window: " ∷ text msg ∷ []
fmt full = text "safe ring lane has no acknowledged slot free" ∷ []
fmt (ring msg) = text "invalid RMA ring state: " ∷ text msg ∷ []
fmt (payload len capacity) =
    text "ring payload length " ∷ number len ∷ text " exceeds capacity " ∷ number capacity ∷ []
fmt (Error.ack origin sequence received) =
    text "cannot acknowledge sequence "
    ∷ number sequence
    ∷ text " from rank "
    ∷ signed origin
    ∷ text "; received through "
    ∷ number received
    ∷ []
fmt (lapped origin expected found) =
    text "safe lane from rank "
    ∷ signed origin
    ∷ text " was overwritten: expected sequence "
    ∷ number expected
    ∷ text ", found "
    ∷ number found
    ∷ []
