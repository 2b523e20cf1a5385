-- ===== src/Window/Transfer.antt =====
-- `put` and `fetch_add`: what they leave in memory, and that a refused one makes no call.
use mpi_rma.Base.{ℕ, sym, as_usize, ◌+◌, ◌≤◌, ◌≡◌, ◌≢◌, ◌∙◌, ap, ◌⊎◌, arith, some}
use mpi_rma.Base.{
  List, ℤ, pos, eqb_ℤ-refl, eqb_ℤ→eq, length, get_elem?, overwrite, set, add_word, i32_max,
}
use mpi_rma.Base.{length-overwrite, length-set, inl, inr, ◌==◌, ◌&&◌, if◌then◌else◌}
use native.Mathlib.Decide.{ℕ_discrete}
use mpi_rma.Error.{Error, ok, err}
use mpi_rma.Mpi.{Mpi, Laws, Reliable}
use mpi_rma.Window.{Window, validate, put, fetch_add}
use mpi_rma.Window.Bounds.{IsWindow, validate_iff}
use mathlib.Core.Path.{subst}

-- An access that the guard refuses, or a transfer of more than `i32::MAX` elements, makes no call
-- of the library: the world is as it was, and the error is the guard's.
pub put_refused :
    (m : Mpi) (s : Window) (dest : ℤ) (disp : ℕ) (xs : List ℕ) (w : m.World) (e : Error)
    → validate s dest disp (length xs) ≡ err e
    → put m s dest disp xs w ≡ (err e, w)
unfolding put
put_refused m s dest disp xs w e refused = rw (refused, put)

module _ (m : Mpi) (s : Window) (d disp : ℕ) where
  put_inv :
      (xs : List ℕ) (w w' : m.World)
      → put m s (pos d) disp xs w ≡ (ok tt, w')
      → ((m.put s.win (pos d) disp xs w).0 ≡ m.success)
        × ((m.flush s.win (pos d) (m.put s.win (pos d) disp xs w).1).0 ≡ m.success)
        × (w' ≡ (m.flush s.win (pos d) (m.put s.win (pos d) disp xs w).1).1)
  unfolding put
  put_inv xs w w' e = ground (
    arith,
    eqb_ℤ→eq (m.put s.win (pos d) disp xs w).0 m.success,
    eqb_ℤ→eq (m.flush s.win (pos d) (m.put s.win (pos d) disp xs w).1).0 m.success,
  )

  fetch_inv :
      (v : ℕ) (w w' : m.World) (got : ℕ)
      → fetch_add m s (pos d) disp v w ≡ (ok got, w')
      → let r = m.fetch_and_sum s.win (pos d) disp v w in
        (r.0 ≡ m.success)
        × ((m.flush s.win (pos d) r.2).0 ≡ m.success)
        × (got ≡ r.1)
        × (w' ≡ (m.flush s.win (pos d) r.2).1)
  unfolding fetch_add
  fetch_inv v w w' got e =
      let r = m.fetch_and_sum s.win (pos d) disp v w in
      ground (arith, eqb_ℤ→eq r.0 m.success, eqb_ℤ→eq (m.flush s.win (pos d) r.2).0 m.success)

module _ (m : Mpi) (laws : Laws m) (s : Window) (d disp : ℕ) where
  -- A put that returns `Ok` has written its elements at the target, and nothing else anywhere.
  pub put_lands :
      (xs : List ℕ) (w w' : m.World)
      → disp + length xs ≤ length (m.memory s.win d w)
      → put m s (pos d) disp xs w ≡ (ok tt, w')
      → (m.memory s.win d w' ≡ overwrite (m.memory s.win d w) disp xs)
        × ((win d' : ℕ) → (win ≢ s.win) ⊎ (d' ≢ d) → m.memory win d' w' ≡ m.memory win d' w)
  put_lands xs w w' fits e =
      let (p, f, r) = put_inv m s d disp xs w w' e in
      (
        ap (m.memory s.win d) r ∙ laws.put_lands s.win d disp xs w p f fits,
        λ win d' ne. ap (m.memory win d') r ∙ laws.put_elsewhere s.win d disp xs w win d' ne,
      )

  put_writes :
      (xs : List ℕ) (w w' : m.World)
      → disp + length xs ≤ length (m.memory s.win d w)
      → put m s (pos d) disp xs w ≡ (ok tt, w')
      → (win d' : ℕ)
      → m.memory win d' w' ≡ (
          if win == s.win && d' == d
          then overwrite (m.memory s.win d w) disp xs
          else m.memory win d' w)
  put_writes xs w w' fits e win d' =
      let (here, elsewhere) = put_lands xs w w' fits e in
      elim (ℕ_discrete win s.win) [
        | no ne ↦ ground (arith, elsewhere win d' (inl ne))
        | yes a ↦ elim (ℕ_discrete d' d) [
          | no ne ↦ ground (arith, elsewhere win d' (inr ne))
          | yes b ↦ ground (arith, here)
        ]
      ]

  -- What the guard allows on a well-formed window lies in the target's memory.
  within :
      (xs : List ℕ) (w : m.World)
      → IsWindow m s w
      → validate s (pos d) disp (length xs) ≡ ok tt
      → disp + length xs ≤ length (m.memory s.win d w)
  within xs w v allowed =
      let a = (validate_iff s v.size (pos d) disp (length xs)).0 allowed in
      let same : d ≡ a.index = ap as_usize a.is_rank in
      let there = subst (λ i. get_elem? s.lengths i ≡ some a.total) (sym same) a.is_length in
      omega (arith, v.stored d a.total there, a.fits)

  put_allowed :
      (xs : List ℕ) (w w' : m.World)
      → put m s (pos d) disp xs w ≡ (ok tt, w')
      → (validate s (pos d) disp (length xs) ≡ ok tt) × (length xs ≤ i32_max)
  unfolding put
  put_allowed xs w w' e = (ground (arith, e), ground (arith, e))

  -- With a library that keeps its laws, a put on a well-formed window that returns `Ok` stayed
  -- within the target's memory and `i32::MAX` elements, wrote its elements at `disp` of that memory
  -- and kept the rest of it, and the memory of every other rank and window.
  pub put_exact :
      (xs : List ℕ) (w w' : m.World)
      → IsWindow m s w
      → put m s (pos d) disp xs w ≡ (ok tt, w')
      → (disp + length xs ≤ length (m.memory s.win d w))
        × (length xs ≤ i32_max)
        × ((win d' : ℕ)
            → m.memory win d' w' ≡ (
                if win == s.win && d' == d
                then overwrite (m.memory s.win d w) disp xs
                else m.memory win d' w))
  put_exact xs w w' valid e =
      let (allowed, short) = put_allowed xs w w' e in
      let fits = within xs w valid allowed in (fits, short, put_writes xs w w' fits e)

  pub fetch_lands :
      (v old : ℕ) (w w' : m.World) (got : ℕ)
      → get_elem? (m.memory s.win d w) disp ≡ some old
      → fetch_add m s (pos d) disp v w ≡ (ok got, w')
      → (got ≡ old)
        × (m.memory s.win d w' ≡ set (m.memory s.win d w) disp (add_word old v))
        × ((win d' : ℕ) → (win ≢ s.win) ⊎ (d' ≢ d) → m.memory win d' w' ≡ m.memory win d' w)
  fetch_lands v old w w' got there e =
      let (p, f, g, r) = fetch_inv m s d disp v w w' got e in
      let (was, now) = laws.fetch_lands s.win d disp v old w p f there in
      (
        g ∙ was,
        ap (m.memory s.win d) r ∙ now,
        λ win d' ne. ap (m.memory win d') r ∙ laws.fetch_elsewhere s.win d disp v w win d' ne,
      )

module _ (m : Mpi) (reliable : Reliable m) (s : Window) (d disp : ℕ) where
  open reliable use {put_succeeds, fetch_succeeds, flush_succeeds}

  -- With a library that does not fail, an allowed put of at most `i32::MAX` elements succeeds.
  pub put_total :
      (xs : List ℕ) (w : m.World)
      → validate s (pos d) disp (length xs) ≡ ok tt
      → length xs ≤ i32_max
      → (put m s (pos d) disp xs w).0 ≡ ok tt
  unfolding put
  put_total xs w allowed short = ground (
    arith,
    put_succeeds s.win (pos d) disp xs w,
    flush_succeeds s.win (pos d) (m.put s.win (pos d) disp xs w).1,
    eqb_ℤ-refl m.success,
  )

  pub fetch_total :
      (v : ℕ) (w : m.World)
      → validate s (pos d) disp 1 ≡ ok tt
      → (fetch_add m s (pos d) disp v w).0 ≡ ok (m.fetch_and_sum s.win (pos d) disp v w).1
  unfolding fetch_add
  fetch_total v w allowed =
      let r = m.fetch_and_sum s.win (pos d) disp v w in
      ground (
        arith,
        fetch_succeeds s.win (pos d) disp v w,
        flush_succeeds s.win (pos d) r.2,
        eqb_ℤ-refl m.success,
      )

IsWindow-same :
    (m : Mpi) {s : Window} {w w' : m.World}
    → ((d : ℕ) → length (m.memory s.win d w') ≡ length (m.memory s.win d w))
    → IsWindow m s w
    → IsWindow m s w'
IsWindow-same m same v = record {
  size = v.size;
  mine = v.mine;
  stored = λ d n e. same d ∙ v.stored d n e;
  small = v.small;
}

-- A write at one target keeps the size of every memory.
sizes_kept :
    (m : Mpi) (win d : ℕ) (w w' : m.World)
    → length (m.memory win d w') ≡ length (m.memory win d w)
    → ((win' d' : ℕ) → (win' ≢ win) ⊎ (d' ≢ d) → m.memory win' d' w' ≡ m.memory win' d' w)
    → (win' d' : ℕ) → length (m.memory win' d' w') ≡ length (m.memory win' d' w)
sizes_kept m win d w w' here elsewhere win' d' = elim (ℕ_discrete win' win) [
  | no ne ↦ ap length (elsewhere win' d' (inl ne))
  | yes e ↦ elim (ℕ_discrete d' d) [
    | no ne ↦ ap length (elsewhere win' d' (inr ne))
    | yes e' ↦ rw (e, e') here
  ]
]

-- A put that returns `Ok` leaves every window well formed.
pub put-IsWindow :
    (m : Mpi) (laws : Laws m) (s : Window) (d disp : ℕ) (xs : List ℕ) (w w' : m.World)
    → disp + length xs ≤ length (m.memory s.win d w)
    → put m s (pos d) disp xs w ≡ (ok tt, w')
    → (t : Window) → IsWindow m t w
    → IsWindow m t w'
put-IsWindow m laws s d disp xs w w' fits e t v =
    let (here, elsewhere) = put_lands m laws s d disp xs w w' fits e in
    IsWindow-same m
      (sizes_kept m s.win d w w' (ap length here ∙ length-overwrite _ disp xs) elsewhere t.win) v

-- So does a fetch-and-add.
pub fetch-IsWindow :
    (m : Mpi) (laws : Laws m) (s : Window) (d disp v old : ℕ) (w w' : m.World) (got : ℕ)
    → get_elem? (m.memory s.win d w) disp ≡ some old
    → fetch_add m s (pos d) disp v w ≡ (ok got, w')
    → (t : Window) → IsWindow m t w
    → IsWindow m t w'
fetch-IsWindow m laws s d disp v old w w' got there e t valid =
    let (was, here, elsewhere) = fetch_lands m laws s d disp v old w w' got there e in
    IsWindow-same m
      (sizes_kept m s.win d w w' (ap length here ∙ length-set _ disp _) elsewhere t.win) valid
