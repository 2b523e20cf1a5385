-- ===== src/Mpi/Model.antt =====
-- A concrete library in which every call succeeds at once: it shows that the laws can hold, and it
-- runs the tests. A handle counts the windows allocated so far, and every rank contributes the same
-- to a gathering.
use mpi_rma.Base.{ℕ, zero, suc, ◌+◌, ◌/◌, arith}
use mpi_rma.Base.{true, ◌&&◌, some, List, [], ◌++◌, ◌==◌, if◌then◌else◌, pos, as_usize}
use mpi_rma.Base.{overwrite, set, get_or, slice, replicate, add_word}
use mpi_rma.Base.{get_or-get_elem?}
use mpi_rma.Error.{multiple}
use mpi_rma.Mpi.{Mpi, Laws}

pub record Cells : Type 0 where
  pub next : ℕ
  pub cell : ℕ → ℕ → List ℕ

-- One window's memory on one rank replaced.
abbrev pub update : Cells → ℕ → ℕ → List ℕ → Cells
update w win d xs = record w { cell = λ h r. if h == win && r == d then xs else w.cell h r }

abbrev pub copies : ℕ → List ℕ → List ℕ
copies zero xs = []
copies (suc n) xs = xs ++ copies n xs

abbrev pub instant : Mpi
instant = record {
  World = Cells;
  success = pos 0;
  err_win = pos 45;
  threading_support = multiple;
  memory = λ win d w. w.cell win d;
  put = λ win dest disp xs w.
      (pos 0, update w win (as_usize dest) (overwrite (w.cell win (as_usize dest)) disp xs));
  get = λ win source disp count w. (pos 0, slice disp count (w.cell win (as_usize source)), w);
  fetch_and_sum = λ win dest disp v w.
      let d = as_usize dest in
      let old = get_or (w.cell win d) disp 0 in
      (pos 0, old, update w win d (set (w.cell win d) disp (add_word old v)));
  flush = λ win target w. (pos 0, w);
  win_sync = λ win w. (pos 0, w);
  lock_all = λ win w. (pos 0, w);
  unlock_all = λ win w. (pos 0, w);
  free = λ win w. (pos 0, w);
  allocate = λ bytes width comm w.
      let cleared = update w w.next (as_usize comm.rank) (replicate (bytes / width) 0) in
      (pos 0, w.next, true, record cleared { next = w.next + 1 });
  win_model = λ win w. (pos 0, some (pos 1));
  unified = pos 1;
  store = λ win d xs w. update w win d (overwrite (w.cell win d) 0 xs);
  all_gather = λ comm xs w. (copies (as_usize comm.size) xs, w);
  barrier = λ comm w. w;
}

-- The laws of the library hold of it.
pub instant-Laws : Laws instant
instant-Laws = record {
  put_lands = λ win d disp xs w c c' h. ground arith;
  put_elsewhere = λ win d disp xs w win' d' ne. ground arith;
  fetch_lands =
      λ win d disp v old w c c' e. ground (arith, get_or-get_elem? (w.cell win d) disp old 0 e);
  fetch_elsewhere = λ win d disp v w win' d' ne. ground arith;
}
