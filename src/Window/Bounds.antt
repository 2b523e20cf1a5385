-- ===== src/Window/Bounds.antt =====
-- When an access of a window is let through, and what the local reads return.
use mpi_rma.Base.{ℕ, zero, suc, ◌+◌, ◌≤◌, ◌<◌, ◌^◌, ◌≡◌, refl, ◌∙◌, ap, ◌↔◌, arith, some}
use mpi_rma.Base.{List, ◌∷◌, ℤ, pos, negsuc, as_usize, length, get_elem?, get_or, slice, word_mod}
use mpi_rma.Base.{get_elem?-lt, slice-zero, slice-suc, sym, Option-cases, inl, inr}
use mpi_rma.Error.{ok}
use mpi_rma.Mpi.{Mpi}
use mpi_rma.Window.{Window, validate, local, read_local, read_local_volatile, read_each}

-- A window as `allocate` makes it, over the memory that it owns.
pub record IsWindow (m : Mpi) (s : Window) (w : m.World) : Type 0 where
  pub size : s.ranks ≡ pos (length s.lengths)
  pub mine : s.rank ≡ pos (as_usize s.rank)
  pub stored : (d n : ℕ) → get_elem? s.lengths d ≡ some n → length (m.memory s.win d w) ≡ n
  pub small : (d n : ℕ) → get_elem? s.lengths d ≡ some n → n < 2 ^ 63

-- What a validated access is.
pub record Allowed (s : Window) (r : ℤ) (start len : ℕ) : Type 0 where
  pub index : ℕ
  pub total : ℕ
  pub is_rank : r ≡ pos index
  pub is_length : get_elem? s.lengths index ≡ some total
  pub fits : start + len ≤ total
  pub no_overflow : start + len < word_mod

module _ (s : Window) (size : s.ranks ≡ pos (length s.lengths)) where
  validate_pos :
      (d start len n : ℕ)
      → get_elem? s.lengths d ≡ some n
      → start + len ≤ n
      → start + len < word_mod
      → validate s (pos d) start len ≡ ok tt
  unfolding validate
  validate_pos d start len n e fits small = ground (arith, size, get_elem?-lt s.lengths d n e)

  validate_inv : (r : ℤ) (start len : ℕ) → validate s r start len ≡ ok tt → Allowed s r start len
  unfolding validate
  validate_inv (negsuc k) start len e = ground arith
  validate_inv (pos d) start len e = elim (Option-cases (get_elem? s.lengths d)) [
    | inl missing ↦ ground (arith, missing)
    | inr (n, found) ↦ record {
      index = d;
      total = n;
      is_rank = refl;
      is_length = found;
      fits = ground (arith, found);
      no_overflow = ground arith;
    }
  ]

  -- The guard lets an access through exactly when its rank is one of the window's and its range
  -- ends, without overflow, within what that rank allocated.
  pub validate_iff :
      (r : ℤ) (start len : ℕ) → (validate s r start len ≡ ok tt) ↔ Allowed s r start len
  validate_iff r start len = (
    validate_inv r start len,
    λ a. rw a.is_rank (validate_pos a.index start len a.total a.is_length a.fits a.no_overflow),
  )

pub read_each-slice :
    (memory : List ℕ) (at n : ℕ)
    → at + n ≤ length memory
    → read_each memory at n ≡ slice at n memory
unfolding read_each
read_each-slice memory at zero h = sym (slice-zero at memory)
read_each-slice memory at (suc n) h =
    ap (λ t. get_or memory at 0 ∷ t) (read_each-slice memory (at + 1) n (omega arith))
    ∙ sym (slice-suc at n 0 memory (omega arith))

module _ (m : Mpi) {s : Window} {w : m.World} (v : IsWindow m s w) (at n : ℕ) {total : ℕ}
    (own : get_elem? s.lengths (as_usize s.rank) ≡ some total) (fits : at + n ≤ total) where
  validate_own : validate s s.rank at n ≡ ok tt
  validate_own = (validate_iff s v.size s.rank at n).1 (record {
    index = as_usize s.rank;
    total = total;
    is_rank = v.mine;
    is_length = own;
    fits = fits;
    no_overflow = omega (arith, v.small (as_usize s.rank) total own);
  })

  local_size : at + n ≤ length (local m s w)
  local_size = omega (arith, v.stored (as_usize s.rank) total own)

  -- A local read within what this rank allocated returns those elements of its memory.
  pub read_local-slice : read_local m s at n w ≡ ok (slice at n (local m s w))
  unfolding read_local
  read_local-slice = rw (validate_own, read_local) (ground (arith, slice-zero at (local m s w)))

  -- So does the volatile one, element by element.
  pub read_local_volatile-slice : read_local_volatile m s at n w ≡ ok (slice at n (local m s w))
  unfolding read_local_volatile
  read_local_volatile-slice =
      rw (validate_own, read_local_volatile) (ap ok (read_each-slice (local m s w) at n local_size))
