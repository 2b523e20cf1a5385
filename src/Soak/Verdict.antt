-- ===== src/Soak/Verdict.antt =====
-- What the main thread checks once the poller has ended.
pub mod Balanced
use mpi_rma.Base.{
  ℕ, zero, suc, ◌+◌, ◌-◌, Bool, true, ◌&&◌, not, none, some, List, get_elem?, ◌==◌, if◌then◌else◌,
  add_word, mul_word,
}

-- The program goes on, aborts with one of the three texts, or panics on an index.
pub data Judgement : Type 0 where
  passes : Judgement
  lane_ended : (origin found : ℕ) → Judgement
  safe_lost : (lost : ℕ) → Judgement
  unbalanced : (got lost sent : ℕ) → Judgement
  broke : Judgement

-- Every lane must end at the sender's last sequence number: the ranks from `origin` on, of which
-- `left` are left.
unfoldable pub check_lanes : (rank messages : ℕ) → List ℕ → (origin left : ℕ) → Judgement
check_lanes rank messages seen origin zero = passes
check_lanes rank messages seen origin (suc left) =
    let rest = check_lanes rank messages seen (origin + 1) left in
    if origin == rank then rest else elim (get_elem? seen origin) [
      | none ↦ broke
      | some n ↦ if n == messages then rest else lane_ended origin n
    ]

-- `messages * peers`.
abbrev pub to_send : (size messages : ℕ) → ℕ
to_send size messages = mul_word messages (size - 1)

unfoldable pub judge : Bool → (size rank messages : ℕ) → List ℕ → (got lost : ℕ) → Judgement
unfolding check_lanes
judge safe size rank messages seen got lost = elim (check_lanes rank messages seen 0 size) [
  | passes ↦
      if safe && not (lost == 0)
      then safe_lost lost
      else if add_word got lost == to_send size messages
      then passes
      else unbalanced got lost (to_send size messages)
  | lane_ended origin n ↦ lane_ended origin n
  | safe_lost n ↦ safe_lost n
  | unbalanced a b d ↦ unbalanced a b d
  | broke ↦ broke
]
