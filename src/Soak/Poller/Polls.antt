-- ===== src/Soak/Poller/Polls.antt =====
-- The batches that `poll` gives to the poller: the lanes one after another.
use mpi_rma.Base.{◌+◌, ◌%◌, ◌≡◌, sym, ◌∙◌, Bool, List, [], length, word_mod, All}
use mpi_rma.Error.{ok}
use mpi_rma.Mpi.{Mpi}
use mpi_rma.Crc.{Crc}
use mpi_rma.Ring.Types.{Message, Ring}
use mpi_rma.Ring.Poll.{poll}
use mpi_rma.Ring.Poll.Results.{polled}
use mpi_rma.Soak.{done}
use mpi_rma.Soak.Payload.{verify}
use mpi_rma.Soak.Poller.{Batch, check_batch}
use mpi_rma.Soak.Poller.Tracks.{Ready, lanes-Tracks}

module _ (m : Mpi) (c : Crc) (w : m.World) (safe : Bool) where
  -- With windows that hold any bytes, on a ring whose lanes lie in its window and whose sequence
  -- numbers are words: if a poll of all lanes returns messages that are intact, the batch passes
  -- the checks of a poller that had seen of every rank what the ring had, each message is counted,
  -- and afterwards the poller has seen again what the ring has.
  pub poll_passes :
      (r : Ring) (ms : List Message) (r' : Ring) (b : Batch)
      → Ready m c w safe (record { ring = r; seen = r.seen.value; messages = [] })
      → poll m c r w ≡ (ok ms, r')
      → All (λ x. verify x ≡ done tt) ms
      → b.seen ≡ r.seen.value
      → (b' : Batch) × (check_batch safe ms b ≡ done b')
        × (b'.seen ≡ r'.seen.value)
        × (b'.total % word_mod ≡ (b.total + length ms) % word_mod)
  poll_passes r ms r' b ready ran intact same =
      let t = lanes-Tracks m c w safe r.incoming ready in
      let (all, now, _) = polled m c w r ms r' ran in
      let mine : t.new ≡ ms = sym t.grown ∙ all in
      let (b', passed, seen, total) = t.passes (rw mine intact) b same in
      (b', rw mine at passed, seen ∙ now, rw mine at total)
