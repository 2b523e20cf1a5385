-- ===== src/Ring/Image/RoundTrip.antt =====
-- What `send` lays out, `frame` reads back.
use mpi_rma.Base.{ℕ, ◌+◌, ◌-◌, ◌*◌, ◌≤◌, ◌<◌, ◌^◌, ◌≡◌, ◌≢◌, refl, ◌∙◌, ap, arith, List, length}
use mpi_rma.Base.{slice, le_bytes, from_le, not_word, word_mod, length-le_bytes, from_le-le_bytes}
use mpi_rma.Crc.{Crc}
use mpi_rma.Ring.Types.{word, checksum_size, header, Lane}
use mpi_rma.Ring.Image.{resize, checksum, build, inspect, intact}
use mpi_rma.Ring.Image.Fields.{
  length-resize, Fits, complete, length-complete, read_tail, read_checksum, read_bytes, read_length,
  read_sequence,
}

-- A lane as `Ring::new` makes it: the slot holds the header, the capacity and the guard.
pub record IsLane (lane : Lane) : Type 0 where
  pub slot_size : lane.slot ≡ lane.capacity + (header + word)
  pub slot_small : lane.slot < 2 ^ 31
  pub deep : 0 < lane.depth

module _ (c : Crc) (lane : Lane) (old : List ℕ) (sequence : ℕ) (bytes : List ℕ) where
  build-complete :
      build c lane old sequence bytes
      ≡ complete lane.slot
          (resize old lane.slot)
          (le_bytes word sequence)
          (le_bytes word (length bytes))
          bytes
          (le_bytes checksum_size (checksum c sequence (length bytes) bytes))
          (le_bytes word (not_word sequence))
  unfolding build
  build-complete = refl

  pub length-build : length (build c lane old sequence bytes) ≡ lane.slot
  length-build =
      ap length build-complete ∙ length-complete _ _ _ _ _ _ _ ∙ length-resize old lane.slot

  module _ (v : IsLane lane) (fits : length bytes ≤ lane.capacity) where
    build-Fits :
        Fits lane.slot
          (resize old lane.slot)
          (le_bytes word sequence)
          (le_bytes word (length bytes))
          bytes
          (le_bytes checksum_size (checksum c sequence (length bytes) bytes))
          (le_bytes word (not_word sequence))
    build-Fits = record {
      whole = length-resize old lane.slot;
      room = omega (arith, v.slot_size);
      seq_size = length-le_bytes word sequence;
      len_size = length-le_bytes word (length bytes);
      sum_size = length-le_bytes checksum_size _;
      tail_size = length-le_bytes word (not_word sequence);
    }

    module _ (small : sequence < word_mod) where
      pub head-build : from_le (slice 0 word (build c lane old sequence bytes)) ≡ sequence
      head-build =
          ap (λ t. from_le (slice 0 word t)) build-complete
          ∙ ap from_le (read_sequence build-Fits)
          ∙ from_le-le_bytes word sequence small

      pub tail-build :
          from_le (slice (lane.slot - word) word (build c lane old sequence bytes))
          ≡ not_word sequence
      tail-build =
          ap (λ t. from_le (slice (lane.slot - word) word t)) build-complete
          ∙ ap from_le (read_tail build-Fits)
          ∙ from_le-le_bytes word (not_word sequence) (omega arith)

    len-build : from_le (slice word word (build c lane old sequence bytes)) ≡ length bytes
    len-build =
        ap (λ t. from_le (slice word word t)) build-complete
        ∙ ap from_le (read_length build-Fits)
        ∙ from_le-le_bytes word (length bytes) (omega (arith, v.slot_size, v.slot_small))

    bytes-build : slice header (length bytes) (build c lane old sequence bytes) ≡ bytes
    bytes-build = ap (λ t. slice header (length bytes) t) build-complete ∙ read_bytes build-Fits

    sum-build :
        from_le (slice (2 * word) checksum_size (build c lane old sequence bytes))
        ≡ checksum c sequence (length bytes) bytes
    unfolding checksum
    sum-build =
        ap (λ t. from_le (slice (2 * word) checksum_size t)) build-complete
        ∙ ap from_le (read_checksum build-Fits)
        ∙ from_le-le_bytes checksum_size _ (c.finalize-lt _)

    -- On a lane that `Ring::new` made, the image of a message that fits, whatever the scratch
    -- buffer held before, passes every check of `frame`, which returns that sequence number and
    -- those bytes.
    pub inspect-build :
        sequence ≢ 0
        → sequence < word_mod
        → inspect c lane (build c lane old sequence bytes)
          ≡ intact (record { sequence = sequence; bytes = bytes })
    unfolding inspect
    inspect-build nonzero small =
        rw (head-build small, tail-build small, len-build, bytes-build, sum-build)
          (ground (arith, v.slot_size, v.slot_small))
