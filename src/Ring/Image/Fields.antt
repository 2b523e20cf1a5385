-- ===== src/Ring/Image/Fields.antt =====
-- The fields of an image that `build` made.
use mpi_rma.Base.{ℕ, ◌+◌, ◌-◌, ◌*◌, ◌≤◌, ◌≡◌, refl, ◌∙◌, inl, inr, arith}
use mpi_rma.Base.{List, length, slice, overwrite}
use mpi_rma.Base.{length-overwrite, length-append, length-take, length-replicate}
use mpi_rma.Base.{slice-overwrite_self, slice-overwrite_disjoint, take, replicate}
use mpi_rma.Ring.Types.{word, checksum_size, header}
use mpi_rma.Ring.Image.{resize}

pub length-resize : (image : List ℕ) (slot : ℕ) → length (resize image slot) ≡ slot
unfolding resize
length-resize image slot = ground (
  arith,
  length-append (take slot image) (replicate (slot - length image) 0),
  length-take slot image,
  length-replicate {A = ℕ} (slot - length image) 0,
)

-- The image in the course of the five writes. `seq`, `len`, `sum` and `tail` are written as bytes.
module _ (slot : ℕ) (image seq len bytes sum tail : List ℕ) where
  abbrev with_sequence : List ℕ
  with_sequence = overwrite image 0 seq

  abbrev with_length : List ℕ
  with_length = overwrite with_sequence word len

  abbrev with_bytes : List ℕ
  with_bytes = overwrite with_length header bytes

  abbrev with_checksum : List ℕ
  with_checksum = overwrite with_bytes (2 * word) sum

  abbrev pub complete : List ℕ
  complete = overwrite with_checksum (slot - word) tail

  pub length-complete : length complete ≡ length image
  length-complete =
      length-overwrite with_checksum (slot - word) tail
      ∙ length-overwrite with_bytes (2 * word) sum
      ∙ length-overwrite with_length header bytes
      ∙ length-overwrite with_sequence word len
      ∙ length-overwrite image 0 seq

-- The sizes of the parts: what makes the five regions disjoint.
pub record Fits (slot : ℕ) (image seq len bytes sum tail : List ℕ) : Type 0 where
  pub whole : length image ≡ slot
  pub room : header + length bytes + word ≤ slot
  pub seq_size : length seq ≡ word
  pub len_size : length len ≡ word
  pub sum_size : length sum ≡ checksum_size
  pub tail_size : length tail ≡ word

module _ {slot : ℕ} {image seq len bytes sum tail : List ℕ}
    (f : Fits slot image seq len bytes sum tail) where
  open f use {whole, room, seq_size, len_size, sum_size, tail_size}

  length-with_sequence : length (with_sequence slot image seq len bytes sum tail) ≡ slot
  length-with_sequence = length-overwrite image 0 seq ∙ whole

  length-with_length : length (with_length slot image seq len bytes sum tail) ≡ slot
  length-with_length = length-overwrite _ word len ∙ length-with_sequence

  length-with_bytes : length (with_bytes slot image seq len bytes sum tail) ≡ slot
  length-with_bytes = length-overwrite _ header bytes ∙ length-with_length

  length-with_checksum : length (with_checksum slot image seq len bytes sum tail) ≡ slot
  length-with_checksum = length-overwrite _ (2 * word) sum ∙ length-with_bytes

  pub read_tail : slice (slot - word) word (complete slot image seq len bytes sum tail) ≡ tail
  read_tail =
      slice-overwrite_self _ (slot - word) word tail (omega arith)
        (omega (arith, length-with_checksum))

  pub read_checksum :
      slice (2 * word) checksum_size (complete slot image seq len bytes sum tail) ≡ sum
  read_checksum =
      slice-overwrite_disjoint _ (slot - word) (2 * word) checksum_size tail (inl (omega arith))
      ∙ slice-overwrite_self (with_bytes slot image seq len bytes sum tail) (2 * word) checksum_size
          sum (omega arith) (omega (arith, length-with_bytes))

  pub read_bytes : slice header (length bytes) (complete slot image seq len bytes sum tail) ≡ bytes
  read_bytes =
      slice-overwrite_disjoint _ (slot - word) header (length bytes) tail (inl (omega arith))
      ∙ slice-overwrite_disjoint (with_bytes slot image seq len bytes sum tail) (2 * word) header
          (length bytes) sum (inr (omega arith))
      ∙ slice-overwrite_self (with_length slot image seq len bytes sum tail) header (length bytes)
          bytes refl (omega (arith, length-with_length))

  pub read_length : slice word word (complete slot image seq len bytes sum tail) ≡ len
  read_length =
      slice-overwrite_disjoint _ (slot - word) word word tail (inl (omega arith))
      ∙ slice-overwrite_disjoint _ (2 * word) word word sum (inl (omega arith))
      ∙ slice-overwrite_disjoint _ header word word bytes (inl (omega arith))
      ∙ slice-overwrite_self _ word word len (omega arith) (omega (arith, length-with_sequence))

  pub read_sequence : slice 0 word (complete slot image seq len bytes sum tail) ≡ seq
  read_sequence =
      slice-overwrite_disjoint _ (slot - word) 0 word tail (inl (omega arith))
      ∙ slice-overwrite_disjoint _ (2 * word) 0 word sum (inl (omega arith))
      ∙ slice-overwrite_disjoint _ header 0 word bytes (inl (omega arith))
      ∙ slice-overwrite_disjoint _ word 0 word len (inl (omega arith))
      ∙ slice-overwrite_self _ 0 word seq (omega arith) (omega arith)
