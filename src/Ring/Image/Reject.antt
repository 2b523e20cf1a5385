-- ===== src/Ring/Image/Reject.antt =====
-- What `frame` accepts, and how it answers torn and malformed snapshots.
use mpi_rma.Base.{ℕ, ◌-◌, ◌*◌, ◌≤◌, ◌<◌, ◌≡◌, ◌≢◌, ◌↔◌, arith, List}
use mpi_rma.Base.{slice, from_le, not_word, word_mod}
use mpi_rma.Crc.{Crc}
use mpi_rma.Ring.Types.{word, checksum_size, header, Lane, Frame}
use mpi_rma.Ring.Image.{checksum, inspect, broken, intact}

module _ (c : Crc) (lane : Lane) (image : List ℕ) where
  -- The words of a snapshot that `inspect` looks at.
  abbrev pub head : ℕ
  head = from_le (slice 0 word image)

  abbrev pub tail : ℕ
  tail = from_le (slice (lane.slot - word) word image)

  abbrev pub declared : ℕ
  declared = from_le (slice word word image)

  abbrev pub stored : ℕ
  stored = from_le (slice (2 * word) checksum_size image)

  -- `frame` accepts a snapshot exactly when its sequence word is not zero, its guard complements
  -- it, its length is within the capacity (and is a 64-bit word), and the stored checksum is that
  -- of sequence, length and the bytes of that length; it then hands out that sequence and those
  -- bytes, and no others.
  pub inspect_iff :
      (f : Frame)
      → (inspect c lane image ≡ intact f) ↔ (
          (head ≢ 0)
          × (tail ≡ not_word head)
          × (declared < word_mod)
          × (declared ≤ lane.capacity)
          × (stored ≡ checksum c head declared (slice header declared image))
          × (f ≡ record { sequence = head; bytes = slice header declared image }))
  unfolding inspect
  inspect_iff f = (λ e. ground arith, λ h. ground arith)

  -- A snapshot whose guard belongs to another sequence number than its head (two messages torn
  -- together) is counted as corrupt, whatever stands between them.
  pub inspect_torn :
      (s : ℕ)
      → head ≢ 0
      → head < word_mod
      → s < word_mod
      → tail ≡ not_word s
      → s ≢ head
      → inspect c lane image ≡ broken
  unfolding inspect
  inspect_torn s nonzero small small' guard ne = ground arith
