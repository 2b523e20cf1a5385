-- ===== src/Tests/Windows.antt =====
-- The slot window of rank 1, written from rank 0 and read back.
use mpi_rma.Base.{ℕ, ◌+◌, ◌≤◌, ◌≡◌, ◌↔◌, refl, [], ◌∷◌, pos}
use mpi_rma.Base.{overwrite, length, i32_max, ◌==◌, ◌&&◌, if◌then◌else◌}
use mpi_rma.Error.{Error, ok, err}
use mpi_rma.Mpi.Model.{Cells, instant, instant-Laws}
use mpi_rma.Window.{validate, put, read_each, read_local_volatile}
use mpi_rma.Window.Bounds.{Allowed, validate_iff}
use mpi_rma.Window.Transfer.{put_exact}
use mpi_rma.Tests.Setup.{slots_of, world, slots-IsWindow}

validate_iff_example :
    (validate (slots_of 0) (pos 1) 76 4 ≡ ok tt) ↔ Allowed (slots_of 0) (pos 1) 76 4
validate_iff_example = validate_iff (slots_of 0) refl (pos 1) 76 4

-- The last four bytes are in range, and a fifth is not.
validate_inside : validate (slots_of 0) (pos 1) 76 4 ≡ ok tt
unfolding validate
validate_inside = refl

validate_outside : validate (slots_of 0) (pos 1) 76 5 ≡ err (Error.range 76 5 80)
unfolding validate
validate_outside = refl

validate_rank : validate (slots_of 0) (pos 2) 0 0 ≡ err (Error.rank (pos 2))
unfolding validate
validate_rank = refl

abbrev after_put : Cells
after_put = (put instant (slots_of 0) (pos 1) 62 (5 ∷ 6 ∷ []) world).1

put_ok : put instant (slots_of 0) (pos 1) 62 (5 ∷ 6 ∷ []) world ≡ (ok tt, after_put)
unfolding put validate
put_ok = refl

put_exact_example :
    (62 + 2 ≤ length (world.cell 0 1))
    × (2 ≤ i32_max)
    × ((win d' : ℕ)
        → after_put.cell win d' ≡ (
            if win == 0 && d' == 1
            then overwrite (world.cell 0 1) 62 (5 ∷ 6 ∷ [])
            else world.cell win d'))
put_exact_example =
    put_exact instant instant-Laws (slots_of 0) 1 62 (5 ∷ 6 ∷ []) world after_put (slots-IsWindow 0)
      put_ok

put_read_back : read_local_volatile instant (slots_of 1) 61 3 after_put ≡ ok (0 ∷ 5 ∷ 6 ∷ [])
unfolding put validate read_local_volatile read_each
put_read_back = refl
