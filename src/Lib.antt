-- ===== src/Lib.antt =====
-- mpi-rma: message rings over MPI remote memory, and shared memory segments.
--
-- A window (src/window.rs) is memory that every rank of a communicator can write. A ring
-- (src/ring.rs) packs one lane per configured pair of ranks into two windows: the slots lie at the
-- destination, the acknowledgement counters at the source. `send` puts one image into one slot,
-- `poll` reads the slots of its own rank without a call of MPI, and `ack` adds to the counter that
-- gates the sender's overwriting. A segment (src/segment.rs) is a named object of shared memory,
-- written once by its creator.
--
-- Base, Action: numbers, lists and their sums, regions of a list, 64-bit words and their bytes;
--   state passing.
-- Error: src/error.rs, `Error` and `Result`; a panic is a third result. Error.Display: the texts.
-- Mpi, Crc: the MPI library and the CRC crate, as records of operations with the laws that their
--   documentation gives. Mpi.Model and `polynomial` of Crc are concrete instances for the tests.
-- Window: src/window.rs. `validate`, `put`, `get`, `fetch_add`, `read_local`,
--   `read_local_volatile`, `sync`, `finish`, `close` and `drop` under their names (`drop_window`);
--   Window.Allocate: `init_epoch` and `allocate`; Window.Bounds and Window.Transfer: proofs.
-- Ring: src/ring.rs. Types: the structs. Image: a slot's bytes, as `send` builds (`build`) and
--   `frame` checks them (`inspect`). Send: `send`, `acknowledged`, `peer`. Slots: `probe`, `frame`,
--   `recover`. Poll: `poll`. Ack: `ack`. Layout: the loop of `new`. Construct: the rest of `new`,
--   `agree`, `depth`, `capacity`, `close`. The modules below these hold their proofs; in Poll.Results,
--   Balance and Ledger those are about one poll of all lanes.
-- Protocol: one safe lane between its two ranks as a state machine over those functions, with
--   `Step` for a call of `send`, `poll` or `ack` and `Reach` for a history of calls.
--   Protocol.Fifo: a bounded queue, the abstract view of a lane; Refinement: the lane against it.
--   Progress: a retried send while the receiver takes turns. Network: all the lanes of a ring side by
--   side, `NetStep` for a call on one of them, and the layout that keeps them apart.
-- Soak: examples/soak.rs. Payload: `paint` and `verify`; Lanes: the all-to-all lanes; Push: `push`;
--   Poller: the thread that checks and acknowledges; Sender: the rounds of the main thread; Verdict:
--   the checks of the main thread at the end; Safe: the program's parts on a safe lane.
-- Compare: examples/compare.rs. Payload: `shuffled`; Stream: the loops of `ring_stream`; Duo, Acts,
--   Turns and Delivered: the receiver's loop on a safe lane while the sender works between its calls; Rtt: `ring_rtt`,
--   both ranks in any interleaving; PointToPoint: `p2p_stream` and `p2p_rtt`, the same.
-- Noise: `noise` of both programs, a pair of ranks with a queue of messages each way. MPI
--   leaves open when a standard send returns: Noise takes every such choice, and in PointToPoint a
--   send returns at once.
-- Segment: src/segment.rs, over the record `Os` of the system's calls (Segment.Io); Names, Contents
--   and Lifecycle: proofs of one process; Shared, Opened, Reader and RoundTrip: of two.
-- Tests: runs on small inputs, and an instance of each result.
--
-- How the code is read. A number is natural, and a word is one below 2^64; `usize` has 64 bits, the
-- target is little-endian, and `+`, `-`, `*` wrap as in a release build. A field behind a mutex is
-- the field and a flag for poisoning; an atomic counter is a field. What the memory behind a window
-- or a mapping holds is a list of numbers that the library's record gives. `sort_unstable` is an
-- insertion sort; where two recovered frames have one sequence number, which an honest sender never
-- leaves, the source may keep another of them than the model. A slice that the source could take out
-- of range of an image is in range on a lane that `new` made.
--
-- Bounds. The loop of `poll` takes at most `depth` messages in one call, which is its fuel here; the
-- loop over a lane's positions in `recover` is the same. A sequence number is a 64-bit word: the
-- protocol results hold for fewer than 2^64 - 2 messages on a lane. In them a call is one step, the
-- library's calls succeed (`Reliable`), and every payload handed to `send` fits the lane. That a
-- receiver may see a half-written slot is the matter of Ring.Image.Reject. The loops that wait for
-- other threads or ranks (`push`, the poller, the benchmark's receiver) run over a list of what the
-- others do meanwhile, one element for each turn; a list that is too short gives `none`.
--
-- Not modelled: the texts of the failures of examples/soak.rs, whose values are; the set-up of the
-- main of examples/compare.rs; the crate root; measuring time, gathering and printing rows, and the
-- arguments of the programs; the test programs under examples/, the tests, and unsafe pointer
-- validity.
pub mod Base
pub mod Error
pub mod Action
pub mod Mpi
pub mod Crc
pub mod Window
pub mod Ring
pub mod Protocol
pub mod Segment
pub mod Compare
pub mod Soak
pub mod Noise
pub mod Tests
