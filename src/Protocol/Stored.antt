-- ===== src/Protocol/Stored.antt =====
-- The slots against the history: a send extends it, a poll reads it.
use mpi_rma.Base.{ℕ, suc, ◌+◌, ◌-◌, ◌%◌, ◌≤◌, ◌<◌, ◌≡◌, ◌≢◌, refl, sym, ◌∙◌, arith, some, inl, inr}
use mpi_rma.Base.{List, [], ◌∷◌, ◌++◌, length, get_elem?, drop, overwrite, length-append}
use mpi_rma.Base.{
  get_elem?-append_left, get_elem?-append_end, get_elem?-lt, get_elem?-drop, get_elem?_total,
}
use native.Mathlib.Decide.{dec_lt}
use native.Mathlib.Nat.{mod-lt, mod-eq_of_lt, mod-eq-sub-mod}
use mpi_rma.Crc.{Crc}
use mpi_rma.Ring.Types.{Lane}
use mpi_rma.Ring.Send.{slot_at}
use mpi_rma.Ring.Regions.{IsPlaced, region, region-overwrite_self, region-overwrite_ne, position_ne}
use mpi_rma.Ring.Poll.Rounds.{Holds}
use mpi_rma.Ring.Poll.Drain.{AreWaiting, IsDrained}
use mpi_rma.Protocol.Invariant.{Stored}

module _ (c : Crc) {lane : Lane} {total : ℕ} (placed : IsPlaced lane total) (memory : List ℕ)
    (history : List (List ℕ)) (whole : length memory ≡ total)
    (stored : Stored c lane memory history) where
  abbrev count : ℕ
  count = length history

  in_lane : (n : ℕ) → n % lane.depth < lane.depth
  in_lane n = mod-lt n placed.is_lane.deep

  module _ (bytes image : List ℕ) (full : length image ≡ lane.slot)
      (fits : Holds c lane image (count + 1) bytes) where
    abbrev memory' : List ℕ
    memory' = overwrite memory (slot_at lane (count % lane.depth)) image

    kept :
        (p : ℕ)
        → p < lane.depth
        → count % lane.depth ≢ p
        → region lane p memory' ≡ region lane p memory
    kept p h ne =
        region-overwrite_ne placed memory image whole full (count % lane.depth) p (in_lane count) h
          ne

    held_old :
        (i : ℕ) (b : List ℕ)
        → i < count
        → get_elem? (history ++ bytes ∷ []) i ≡ some b
        → count + 1 ≤ i + lane.depth
        → Holds c lane (region lane (i % lane.depth) memory') (i + 1) b
    held_old i b lt e room =
        let apart = position_ne i (count - i) lane.depth (omega arith) (omega arith) in
        let ends : i + (count - i) ≡ count = omega arith in
        rw (kept (i % lane.depth) (in_lane i) (rw ends at apart)) (
          stored.held i b (sym (get_elem?-append_left history (bytes ∷ []) i lt) ∙ e) (omega arith))

    held_new :
        (i : ℕ) (b : List ℕ)
        → i ≡ count
        → get_elem? (history ++ bytes ∷ []) i ≡ some b
        → Holds c lane (region lane (i % lane.depth) memory') (i + 1) b
    held_new i b at_end e =
        let last = get_elem?-append_end history bytes in
        let same : b ≡ bytes = cc (at_end, e, last) in
        rw
          (
            at_end,
            same,
            region-overwrite_self placed memory image whole full (count % lane.depth)
                (in_lane count),
          )
          fits

    -- The image of the next message, put into its slot, extends what the slots hold.
    pub Stored-push : Stored c lane memory' (history ++ bytes ∷ [])
    Stored-push = record {
      held = λ i b e room. elim (dec_lt i count) [
        | yes lt ↦ held_old i b lt e (omega (arith, length-append history (bytes ∷ [])))
        | no ge ↦
            held_new i b
              (omega (
                arith,
                get_elem?-lt (history ++ bytes ∷ []) i b e,
                length-append history (bytes ∷ []),
              ))
              e
      ];
      vacant = λ p past h.
          let beyond : count < p = omega (arith, length-append history (bytes ∷ [])) in
          let here = mod-eq_of_lt {n = count} {m = lane.depth} (omega arith) in
          rw (kept p h (λ e. omega arith)) (stored.vacant p (omega arith) h);
    }

  waiting_from :
      (n : ℕ) (bs : List (List ℕ))
      → ((i : ℕ) (b : List ℕ)
          → get_elem? bs i ≡ some b
          → Holds c lane (region lane ((n + i) % lane.depth) memory) (n + i + 1) b)
      → AreWaiting c lane memory n bs
  waiting_from n [] each = tt
  waiting_from n (b ∷ bs) each =
      let start : n + 0 ≡ n = omega arith in
      (
        rw start at (each 0 b refl),
        waiting_from (n + 1) bs (λ i b' e.
            let step : n + suc i ≡ n + 1 + i = omega arith in rw step at (each (suc i) b' e)),
      )

  -- What the receiver has not seen waits for it, if it is no more than a lane's depth.
  pub Stored-waiting :
      (seen : ℕ) → count ≤ seen + lane.depth → AreWaiting c lane memory seen (drop seen history)
  Stored-waiting seen near = waiting_from seen (drop seen history) (λ i b e.
      stored.held (seen + i) b (sym (get_elem?-drop seen i (seen + i) history refl) ∙ e)
        (omega arith))

  -- Behind the last message there is nothing new.
  pub Stored-IsDrained : IsDrained c lane memory count
  Stored-IsDrained = elim (dec_lt count lane.depth) [
    | yes short ↦ inl (
        rw (mod-eq_of_lt {n = count} {m = lane.depth} short)
          (stored.vacant count (omega arith) short))
    | no long ↦
        let i = count - lane.depth in
        let (b, e) = get_elem?_total history i (omega (arith, placed.is_lane.deep)) in
        inr (
          i + 1,
          b,
          omega (arith, placed.is_lane.deep),
          rw (mod-eq-sub-mod {n = count} {m = lane.depth} (omega arith))
              (stored.held i b e (omega arith)),
        )
  ]
