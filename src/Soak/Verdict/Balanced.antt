-- ===== src/Soak/Verdict/Balanced.antt =====
-- The last check against the others: messages received and lost are all that were sent.
use mpi_rma.Base.{
  ℕ, zero, suc, ◌+◌, ◌-◌, ◌*◌, ◌%◌, ◌≤◌, ◌<◌, ◌≡◌, ◌≢◌, ◌↔◌, refl, sym, ◌∙◌, ap, arith, Bool, true,
  false, none, some, List, [], ◌∷◌, length, get_elem?, sum, ◌==◌, add_word, word_mod, Option-cases,
  Bool-cases, inl, inr, ℤ, replicate, length-replicate, get_elem?-replicate,
}
use native.Mathlib.Decide.{ℕ_discrete}
use mathlib.Core.Option.{some-injective}
use mpi_rma.Mpi.{Mpi, Laws}
use mpi_rma.Crc.{Crc}
use mpi_rma.Soak.{done}
use mpi_rma.Soak.Verdict.{passes, check_lanes, judge, to_send}
use mpi_rma.Soak.Poller.Live.{Live, Healthy}
use mpi_rma.Soak.Poller.Whole.{Harmless, polling, polling-Balances}

-- Every other rank's entry is the last sequence number.
abbrev pub AllEnded : (size rank messages : ℕ) → List ℕ → Type 0
AllEnded size rank messages seen = (i : ℕ) → i < size → i ≢ rank → get_elem? seen i ≡ some messages

-- One turn of the loop.
check_step :
    (rank messages : ℕ) (seen : List ℕ) (origin left : ℕ)
    → (check_lanes rank messages seen origin (suc left) ≡ passes) ↔ (
        (origin ≢ rank → get_elem? seen origin ≡ some messages)
        × (check_lanes rank messages seen (origin + 1) left ≡ passes))
unfolding check_lanes
check_step rank messages seen origin left = elim (ℕ_discrete origin rank) [
  | yes own ↦
      let test : (origin == rank) ≡ true = ground (arith, own) in
      rw test (λ e. (λ ne. absurd (ne own), e), λ h. h.1)
  | no other ↦
      let test : (origin == rank) ≡ false = ground (arith, other) in
      elim (Option-cases (get_elem? seen origin)) [
        | inl gone ↦ rw (test, gone) (λ e. cc, λ h. let bad = h.0 other in cc)
        | inr (n, found) ↦ elim (ℕ_discrete n messages) [
          | yes same ↦
              let hit : (n == messages) ≡ true = ground (arith, same) in
              rw (test, found, hit) (λ e. (λ ne. ap some same, e), λ h. h.1)
          | no differs ↦
              let miss : (n == messages) ≡ false = ground (arith, differs) in
              rw (test, found, miss)
                (λ e. cc, λ h. absurd (differs (some-injective n messages (h.0 other))))
        ]
      ]
]

check_lanes_from :
    (rank messages : ℕ) (seen : List ℕ) (origin left : ℕ)
    → (check_lanes rank messages seen origin left ≡ passes)
      ↔ ((i : ℕ) → origin ≤ i → i < origin + left → i ≢ rank → get_elem? seen i ≡ some messages)
unfolding check_lanes
check_lanes_from rank messages seen origin zero = (λ e i lo hi ne. absurd (omega arith), λ h. refl)
check_lanes_from rank messages seen origin (suc left) =
    let ih = check_lanes_from rank messages seen (origin + 1) left in
    let step = check_step rank messages seen origin left in
    (
      λ e i lo hi ne. elim (ℕ_discrete origin i) [
        | yes here ↦ ap (get_elem? seen) (sym here) ∙ (step.0 e).0 (λ own. ne (sym here ∙ own))
        | no later ↦ ih.0 (step.0 e).1 i (omega arith) (omega arith) ne
      ],
      λ h. step.1 (
        h origin (omega arith) (omega arith),
        ih.1 (λ i lo hi ne. h i (omega arith) (omega arith) ne),
      ),
    )

sum-same :
    (xs : List ℕ) (n : ℕ)
    → ((i : ℕ) → i < length xs → get_elem? xs i ≡ some n)
    → sum xs ≡ n * length xs
sum-same [] n h = grind arith
sum-same (x ∷ xs) n h =
    let ih = sum-same xs n (λ i lt. h (suc i) (omega arith)) in
    let first : x ≡ n = some-injective x n (h 0 (omega arith)) in grind arith

-- The sum over a list in which one entry is 0 and every other one `n`.
sum-ended :
    (xs : List ℕ) (at n : ℕ)
    → ((i : ℕ) → i < length xs → i ≢ at → get_elem? xs i ≡ some n)
    → get_elem? xs at ≡ some 0
    → sum xs + n ≡ n * length xs
sum-ended [] at n h z = cc
sum-ended (x ∷ xs) zero n h z =
    let rest = sum-same xs n (λ i lt. h (suc i) (omega arith) (λ e. omega arith)) in
    let first : x ≡ 0 = some-injective x 0 z in grind arith
sum-ended (x ∷ xs) (suc at) n h z =
    let ih = sum-ended xs at n (λ i lt ne. h (suc i) (omega arith) (λ e. ne (omega arith))) z in
    let first : x ≡ n = some-injective x n (h 0 (omega arith) (λ e. omega arith)) in grind arith

sum-replicate : (n : ℕ) → sum (replicate n 0) ≡ 0
sum-replicate zero = refl
sum-replicate (suc n) = omega (arith, sum-replicate n)

sum_but_one : (total n size : ℕ) → 0 < size → total + n ≡ n * size → total ≡ n * (size - 1)
sum_but_one total n zero h e = elim h [ ]
sum_but_one total n (suc k) h e = grind arith

balanced_words :
    (lost got reached sent start : ℕ)
    → start ≡ 0
    → reached ≡ sent
    → (lost + got) % word_mod ≡ (0 + 0 + (reached - start)) % word_mod
    → add_word got lost ≡ sent % word_mod
balanced_words lost got reached sent start a b e = omega arith

judge_iff :
    (safe : Bool) (size rank messages : ℕ) (seen : List ℕ) (got lost : ℕ)
    → (AllEnded size rank messages seen → add_word got lost ≡ to_send size messages)
    → (judge safe size rank messages seen got lost ≡ passes)
      ↔ (AllEnded size rank messages seen × (safe ≡ true → lost ≡ 0))
unfolding judge
judge_iff safe size rank messages seen got lost balanced =
    let ends = check_lanes_from rank messages seen 0 size in
    (
      λ e.
          let lanes = lanes_passed e in
          let all : AllEnded size rank messages seen =
            λ i lt ne. ends.0 lanes i (omega arith) (omega arith) ne in
          (all, λ yes_safe. ground (arith, e, lanes, yes_safe)),
      λ h.
          let lanes = ends.1 (λ i lo hi ne. h.0 i (omega arith) ne) in
          let sums = balanced h.0 in
          elim (Bool-cases safe) [
            | inl yes_safe ↦ let none_lost = h.1 yes_safe in ground (arith, lanes, sums)
            | inr raw ↦ ground (arith, lanes, sums, raw)
          ],
    )
  where
    lanes_passed :
        judge safe size rank messages seen got lost ≡ passes
        → check_lanes rank messages seen 0 size ≡ passes
    lanes_passed e = ground (arith, e)

module _ (m : Mpi) (laws : Laws m) (c : Crc) (safe : Bool) (order : List (ℤ × ℕ) → List (ℤ × ℕ))
    (size rank messages : ℕ) (schedule : List (Live m → Live m))
    (harmless : Harmless m laws c safe order schedule) (s : Live m) (healthy : Healthy m safe s)
    (member : rank < size) (unread : s.ring.seen.value ≡ replicate size 0)
    (no_loss : s.ring.lost ≡ 0) (no_own : get_elem? s.ring.from rank ≡ some none) where
  -- On one rank of the stress test, safe or raw, over a ring that has received nothing yet, whose
  -- lanes lie in its window and no slot of which ever starts with the word 2^64 - 1, without a lane
  -- to itself, and while the other threads leave the ring's receiving side alone: if the poller
  -- ended without an error, the main thread's checks pass exactly when every other rank's lane
  -- ended at the last sequence number and a safe ring counts no loss. The check that received and
  -- lost messages are all that were sent never fails by itself.
  pub verdict_iff :
      (seen : List ℕ) (got : ℕ) (t : Live m)
      → polling m laws c safe order schedule (replicate size 0) 0 s ≡ some (done (seen, got), t)
      → (judge safe size rank messages seen got t.ring.lost ≡ passes)
        ↔ (AllEnded size rank messages seen × (safe ≡ true → t.ring.lost ≡ 0))
  verdict_iff seen got t e =
      let b =
        polling-Balances m laws c safe order schedule (replicate size 0) 0 s seen got t harmless
          healthy (sym unread) e in
      let nothing = sum-replicate size in
      let length_seen : length seen ≡ size = b.ranks ∙ length-replicate {A = ℕ} size 0 in
      let own : get_elem? seen rank ≡ some 0 =
        b.unused rank no_own ∙ get_elem?-replicate {A = ℕ} size rank 0 member in
      judge_iff safe size rank messages seen got t.ring.lost (λ all.
        let whole =
          sum-ended seen rank messages (λ i lt ne. all i (rw (← length_seen) lt) ne) own in
        let total = sum_but_one (sum seen) messages size (omega arith) (rw length_seen at whole) in
        balanced_words t.ring.lost got (sum seen) (messages * (size - 1)) (sum (replicate size 0))
          nothing total (rw no_loss at b.balance))
