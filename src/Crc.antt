-- ===== src/Crc.antt =====
-- The `crc32fast` crate: a streaming hasher. The ring relies on nothing but that a checksum is a
-- function of the bytes fed to it and fits 32 bits.
use mpi_rma.Base.{ℕ, ◌+◌, ◌*◌, ◌^◌, ◌%◌, ◌<◌, List, arith}
use mathlib.Core.List.{foldl}

pub record Crc : Type 1 where
  pub Hasher : Type 0
  pub new : Hasher
  pub feed : Hasher → List ℕ → Hasher
  pub finalize : Hasher → ℕ
  pub finalize-lt : (h : Hasher) → finalize h < 2 ^ 32

-- A concrete hasher for the tests: a polynomial of the bytes.
abbrev pub polynomial : Crc
polynomial = record {
  Hasher = ℕ;
  new = 1;
  feed = foldl (λ h b. (h * 31 + b) % 2 ^ 32);
  finalize = λ h. h % 2 ^ 32;
  finalize-lt = λ h. omega arith;
}
