-- ===== src/Compare/Payload.antt =====
-- `shuffled`: the payload of a repeat.
use Prim.Native.Nat.{bit_xor, bit_or}
use mpi_rma.Base.{ℕ, zero, suc, ◌+◌, ◌-◌, ◌*◌, ◌/◌, ◌%◌, ◌^◌, ◌<◌, ◌≡◌, refl, ap, arith, List, ◌∷◌}
use mpi_rma.Base.{get_elem?, set, replicate, word_mod, get_elem?-replicate}
use mpi_rma.Error.{Result, ok, or_panic, ◌>>=◌}

-- One draw of xorshift64.
unfoldable pub rnd : ℕ → ℕ
rnd x =
    let a = bit_xor x (x * 2 ^ 13 % word_mod) in
    let b = bit_xor a (a / 2 ^ 7) in bit_xor b (b * 2 ^ 17 % word_mod)

-- `slice::swap`, which panics out of range.
unfoldable pub swap : List ℕ → ℕ → ℕ → Result (List ℕ)
swap buf i j = do
  a ← or_panic (get_elem? buf i)
  b ← or_panic (get_elem? buf j)
  ok (set (set buf i b) j a)

-- The loop over the positions from `i` down to 1.
unfoldable pub walk : (i : ℕ) → (x : ℕ) → List ℕ → Result (List ℕ)
walk zero x buf = ok buf
walk (suc i) x buf = swap buf (suc i) (rnd x % (suc i + 1)) >>= λ buf'. walk i (rnd x) buf'

abbrev pub fill : ℕ
fill = 0xC3

abbrev pub seed : ℕ → ℕ
seed rep = bit_or (rep + 1) 1

unfoldable pub shuffled : (rep len : ℕ) → Result (List ℕ)
unfolding walk
shuffled rep len = walk (len - 1) (seed rep) (replicate len fill)

set-replicate : (n i v : ℕ) → set (replicate n v) i v ≡ replicate n v
set-replicate zero i v = refl
set-replicate (suc n) zero v = refl
set-replicate (suc n) (suc i) v = ap (λ t. v ∷ t) (set-replicate n i v)

swap-replicate : (n i j v : ℕ) → i < n → j < n → swap (replicate n v) i j ≡ ok (replicate n v)
unfolding swap
swap-replicate n i j v hi hj = rw (
  get_elem?-replicate n i v hi,
  get_elem?-replicate n j v hj,
  set-replicate n i v,
  set-replicate n j v,
)

walk-replicate : (n v i x : ℕ) → i < n → walk i x (replicate n v) ≡ ok (replicate n v)
unfolding walk
walk-replicate n v zero x h = refl
walk-replicate n v (suc i) x h =
    rw (swap-replicate n (suc i) (rnd x % (suc i + 1)) v h (omega arith))
      (walk-replicate n v i (rnd x) (omega arith))

-- The payload is the same bytes for every repeat: the walk permutes a buffer that holds one byte
-- throughout. No swap is out of range.
pub shuffled_constant : (rep len : ℕ) → shuffled rep len ≡ ok (replicate len fill)
unfolding shuffled
shuffled_constant rep zero = refl
shuffled_constant rep (suc len) =
    walk-replicate (suc len) fill (suc len - 1) (seed rep) (omega arith)
