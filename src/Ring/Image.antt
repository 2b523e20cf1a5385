-- ===== src/Ring/Image.antt =====
-- src/ring.rs: one slot's bytes, as `send` lays them out and as `frame` checks them. A lane's slot
-- is 28 bytes longer than its capacity (`Ring/Layout.antt`), so no slice of the source goes past
-- its image.
pub mod Fields
pub mod RoundTrip
pub mod Reject
use mpi_rma.Base.{ℕ, ◌+◌, ◌-◌, ◌*◌, not, List, ◌++◌, length, take, replicate, slice}
use mpi_rma.Base.{overwrite, le_bytes, from_le, not_word, word_mod, ltb, ◌==◌, if◌then◌else◌}
use mpi_rma.Crc.{Crc}
use mpi_rma.Ring.Types.{word, checksum_size, header, Lane, Frame}

-- `image.resize(slot, 0)`, made where the length differs.
unfoldable pub resize : List ℕ → ℕ → List ℕ
resize image slot =
    if length image == slot then image else take slot image ++ replicate (slot - length image) 0

-- What a snapshot of a slot turns out to be.
pub data Verdict : Type 0 where
  vacant : Verdict
  broken : Verdict
  intact : Frame → Verdict

module _ (c : Crc) where
  open c use {new, feed, finalize}

  unfoldable pub checksum : ℕ → ℕ → List ℕ → ℕ
  checksum sequence len bytes =
      finalize (feed (feed (feed new (le_bytes word sequence)) (le_bytes word len)) bytes)

  -- The five writes of `send` into the lane's scratch image.
  unfoldable pub build : Lane → List ℕ → ℕ → List ℕ → List ℕ
  build lane old sequence bytes =
      let len = length bytes in
      let image = resize old lane.slot in
      let image1 = overwrite image 0 (le_bytes word sequence) in
      let image2 = overwrite image1 word (le_bytes word len) in
      let image3 = overwrite image2 header bytes in
      let image4 =
        overwrite image3 (2 * word) (le_bytes checksum_size (checksum sequence len bytes)) in
      overwrite image4 (lane.slot - word) (le_bytes word (not_word sequence))

  -- The checks of `frame` on its snapshot, in their order.
  unfoldable pub inspect : Lane → List ℕ → Verdict
  inspect lane image =
      let sequence = from_le (slice 0 word image) in
      let tail = from_le (slice (lane.slot - word) word image) in
      let len = from_le (slice word word image) in
      let bytes = slice header len image in
      let stored = from_le (slice (2 * word) checksum_size image) in
      if sequence == 0
      then vacant
      else if not (tail == not_word sequence)
      then broken
      else if not (ltb len word_mod)
      then broken
      else if ltb lane.capacity len
      then broken
      else if not (stored == checksum sequence len bytes)
      then broken
      else intact (record { sequence = sequence; bytes = bytes })
